-- ===== src/Runtime/Reuse.antt =====
-- `resolve_runtime` of control_plane/runtime_resolver.py.
pub mod Pinned
use ml_template.Prelude.{
  ◌>>=◌, ◌>>◌, ◌≡◌, ok, String, List, ℕ, Result, Bool, check, Option, break_at, codes, eqb,
  value_error, not, none, list_beq, ◌⊎◌, some, [], true, Option-cases, ◌&&◌, all, inl, sym,
  ok-injective, drop, inr, >>=-eq-ok, ℕ_eq, ◌∙◌, ap, check-ok,
}
use ml_template.Release.Host.{Host}
use ml_template.Runtime.Resolver.{ArtifactContract, runtime_fingerprint}
use ml_template.Release.Types.{RuntimeProfile}
use ml_template.Runtime.Requirements.{is_space}
use ml_template.Release.Pairs.{is_digest_codes}

-- The answer: a runtime image to use, or a fingerprint to build for.
pub data Choice : Type 0 where
  reuse : String → String → Choice
  build : String → Choice

-- [^@\s]+@sha256:[0-9a-f]{64}
unfoldable pub is_exact_runtime : List ℕ → Bool
is_exact_runtime image =
    let (repository, digest) = break_at (eqb b'@') image in
    not (list_beq repository [])
    && all (λ d. not (is_space d)) repository
    && is_digest_codes (drop 1 digest)

validate_runtime_image : String → Result String
validate_runtime_image image =
    check (is_exact_runtime (codes image))
      (value_error "Runtime catalog values must be immutable repository@sha256 references")
    >> ok image

module _ (h : Host) where
  unfoldable pub resolve_runtime :
      ArtifactContract → (String → Option String) → RuntimeProfile → Result Choice
  unfolding validate_runtime_image
  resolve_runtime contract catalog profile =
      let fingerprint = runtime_fingerprint h contract profile in
      elim (catalog fingerprint) [
        | none ↦ ok (build fingerprint)
        | some existing ↦
            (validate_runtime_image existing >>= λ image. ok (reuse fingerprint image))
      ]
