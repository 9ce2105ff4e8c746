-- ===== src/Runtime/Reuse/Pinned.antt =====
-- Which images `resolve_runtime` gives.
use ml_template.Runtime.Reuse.{
  Choice, reuse, build, is_exact_runtime, resolve_runtime, validate_runtime_image,
}
use ml_template.Runtime.Resolver.{ArtifactContract, runtime_fingerprint}
use ml_template.Runtime.Requirements.{is_space}
use ml_template.Release.Pairs.{is_digest_codes}
use ml_template.Release.Host.{Host}
use ml_template.Release.Types.{RuntimeProfile, Text}
use ml_template.Prelude.{
  ℕ, String, [], ◌∷◌, ◌++◌, ◌≡◌, ◌≢◌, true, false, Bool, not, ◌&&◌, all, eqb, eqb_iff, length,
  is_hex, codes, break_at, strip_prefix, drop, Bool-cases, inl, inr, ◌⊎◌, ◌↔◌, refl, some, none,
  Option, Option-cases, list_beq, list_beq_iff, List_eq, ℕ_eq, ◌==◌, ==_iff, and_iff, sym, ap, ◌∙◌,
  ok, check, check-ok, value_error, ◌>>=◌, ◌>>◌, >>=-eq-ok, ok-injective,
}

-- A repository without spaces and @, and behind it @sha256: and 64 hexadecimal digits.
abbrev pub IsPinned : Text → Type 0
IsPinned image =
    (repository : Text) × (hex : Text) × (image ≡ repository ++ (b'@' ∷ (codes "sha256:" ++ hex)))
    × (repository ≢ [])
    × (all (λ c. not (is_space c)) repository ≡ true)
    × (all (λ c. not (eqb b'@' c)) repository ≡ true)
    × (all is_hex hex ≡ true)
    × (length hex ≡ 64)

break_at-parts :
    (stop : ℕ → Bool) (s : Text)
    → (s ≡ (break_at stop s).0 ++ (break_at stop s).1)
      × (all (λ c. not (stop c)) (break_at stop s).0 ≡ true)
      × (((break_at stop s).1 ≡ [])
          ⊎ (c : ℕ) × (tail : Text) × ((break_at stop s).1 ≡ c ∷ tail) × (stop c ≡ true))
unfolding break_at
break_at-parts stop [] = (refl, refl, inl refl)
break_at-parts stop (c ∷ s) =
    let (split, before, rest) = break_at-parts stop s in
    elim (Bool-cases (stop c)) [
      | inl hit ↦ rw hit (refl, refl, inr (c, s, refl, hit))
      | inr miss ↦ rw miss (ap (λ x. c ∷ x) split, rw (miss, before) refl, rest)
    ]

break_at-append :
    (stop : ℕ → Bool) (before : Text) (c : ℕ) (tail : Text)
    → all (λ d. not (stop d)) before ≡ true
    → stop c ≡ true
    → break_at stop (before ++ c ∷ tail) ≡ (before, c ∷ tail)
unfolding break_at
break_at-append stop [] c tail h hit = rw hit refl
break_at-append stop (d ∷ before) c tail h hit =
    let (first, others) = (and_iff (not (stop d)) (all (λ d. not (stop d)) before)).0 h in
    elim (Bool-cases (stop d)) [
      | inl bad ↦ let no : not true ≡ true = rw bad at first in cc
      | inr miss ↦ rw (miss, break_at-append stop before c tail others hit) refl
    ]

strip_prefix-some : (p s : Text) {rest : Text} → strip_prefix p s ≡ some rest → s ≡ p ++ rest
unfolding strip_prefix
strip_prefix-some [] s h = cc
strip_prefix-some (c ∷ p) [] h = cc
strip_prefix-some (c ∷ p) (d ∷ s) {rest} h = elim (Bool-cases (eqb c d)) [
  | inl hit ↦
      let same : c ≡ d = (eqb_iff c d).0 hit in
      let below = strip_prefix-some p s (rw hit at h) in rw (same, below) refl
  | inr miss ↦ let bad = (rw miss at h) in cc
]

strip_prefix-append : (p s : Text) → strip_prefix p (p ++ s) ≡ some s
unfolding strip_prefix
strip_prefix-append [] s = refl
strip_prefix-append (c ∷ p) s = rw ((eqb_iff c c).1 refl) (strip_prefix-append p s)

digest-parts :
    (s : Text)
    → is_digest_codes s ≡ true
    → (hex : Text) × (s ≡ codes "sha256:" ++ hex) × (all is_hex hex ≡ true) × (length hex ≡ 64)
unfolding is_digest_codes
digest-parts s h = elim (Option-cases (strip_prefix (codes "sha256:") s)) [
  | inl missing ↦ let bad = (rw (is_digest_codes, missing) at h) in cc
  | inr (hex, there) ↦
      let both : (all is_hex hex && length hex == 64) ≡ true = rw (is_digest_codes, there) at h in
      let (digits, size) = (and_iff (all is_hex hex) (length hex == 64)).0 both in
      (hex, strip_prefix-some (codes "sha256:") s there, digits, (==_iff (length hex) 64).0 size)
]

exact-IsPinned : (image : Text) → is_exact_runtime image ≡ true → IsPinned image
unfolding is_exact_runtime
exact-IsPinned image h =
    let repository = (break_at (eqb b'@') image).0 in
    let rest = (break_at (eqb b'@') image).1 in
    let (front, digest) =
      (and_iff (not (list_beq repository []) && all (λ c. not (is_space c)) repository)
          (is_digest_codes (drop 1 rest))).0
        h in
    let (some_text, plain) =
      (and_iff (not (list_beq repository [])) (all (λ c. not (is_space c)) repository)).0 front in
    let (split, no_at, tail) = break_at-parts (eqb b'@') image in
    let (hex, is, digits, size) = digest-parts (drop 1 rest) digest in
    let behind : rest ≡ b'@' ∷ (codes "sha256:" ++ hex) = elim tail [
      | inl empty ↦ let bad = (rw empty at is) in cc
      | inr (c, t, there, hit) ↦
          let same : b'@' ≡ c = (eqb_iff b'@' c).0 hit in
          let after : t ≡ codes "sha256:" ++ hex = rw there at is in rw (there, ← same, after) refl
    ] in
    (
      repository,
      hex,
      split ∙ ap (λ x. repository ++ x) behind,
      (λ e.
          let nothing = (list_beq_iff repository []).1 e in
          let bad : not true ≡ true = rw nothing at some_text in cc),
      plain,
      no_at,
      digits,
      size,
    )

digest-append :
    (hex : Text)
    → all is_hex hex ≡ true
    → length hex ≡ 64
    → is_digest_codes (codes "sha256:" ++ hex) ≡ true
unfolding is_digest_codes
digest-append hex digits size =
    rw (is_digest_codes, strip_prefix-append (codes "sha256:") hex, digits)
      ((==_iff (length hex) 64).1 size)

IsPinned-exact : (image : Text) → IsPinned image → is_exact_runtime image ≡ true
unfolding is_exact_runtime
IsPinned-exact image (repository, hex, is, some_text, plain, no_at, digits, size) =
    let named : list_beq repository [] ≡ false = elim (Bool-cases (list_beq repository [])) [
      | inl nothing ↦ absurd (some_text ((list_beq_iff repository []).0 nothing))
      | inr something ↦ something
    ] in
    let parts : break_at (eqb b'@') image ≡ (repository, b'@' ∷ (codes "sha256:" ++ hex)) =
      ap (break_at (eqb b'@')) is
      ∙ break_at-append (eqb b'@') repository b'@' (codes "sha256:" ++ hex) no_at refl in
    rw (is_exact_runtime, parts, named, plain) (digest-append hex digits size)

module _ (h : Host) (contract : ArtifactContract) (catalog : String → Option String)
    (profile : RuntimeProfile) where
  -- The catalog has no image for the fingerprint, and a build is asked for, or it has one that is
  -- pinned, and that is given.
  abbrev pub Resolved : Choice → Type 0
  Resolved choice =
      ((catalog (runtime_fingerprint h contract profile) ≡ none)
        × (choice ≡ build (runtime_fingerprint h contract profile)))
      ⊎ (image : String) × (catalog (runtime_fingerprint h contract profile) ≡ some image)
        × IsPinned (codes image)
        × (choice ≡ reuse (runtime_fingerprint h contract profile) image)

  resolve_runtime-Resolved :
      (choice : Choice) → resolve_runtime h contract catalog profile ≡ ok choice → Resolved choice
  unfolding resolve_runtime validate_runtime_image
  resolve_runtime-Resolved choice e =
      let print = runtime_fingerprint h contract profile in
      elim (Option-cases (catalog print)) [
        | inl missing ↦
            let built : ok (build print) ≡ ok choice = rw (resolve_runtime, missing) at e in
            inl (missing, sym (ok-injective built))
        | inr (image, there) ↦
            let reused : ((check (is_exact_runtime (codes image)) (
                      value_error
                        "Runtime catalog values must be immutable repository@sha256 references")
                    >> ok image)
                  >>= λ i. ok (reuse print i))
                ≡ ok choice =
              rw (resolve_runtime, there) at e in
            let (i, valid, e1) =
              >>=-eq-ok (check (is_exact_runtime (codes image)) _ >> ok image) _ reused in
            let (u, exact, e2) = >>=-eq-ok (check (is_exact_runtime (codes image)) _) _ valid in
            inr (
              image,
              there,
              exact-IsPinned (codes image) (check-ok _ _ exact),
              sym (ok-injective e1) ∙ ap (reuse print) (sym (ok-injective e2)),
            )
      ]

  Resolved-resolve_runtime :
      (choice : Choice) → Resolved choice → resolve_runtime h contract catalog profile ≡ ok choice
  unfolding resolve_runtime validate_runtime_image
  Resolved-resolve_runtime choice (inl (missing, is)) = rw (resolve_runtime, missing, is) refl
  Resolved-resolve_runtime choice (inr (image, there, pinned, is)) =
      rw (resolve_runtime, there, is, IsPinned-exact (codes image) pinned) refl

  -- The runtime is resolved, and with this choice, exactly if a build is asked for because the
  -- catalog has no image for the fingerprint, or its image is given and has a repository without
  -- spaces and @, and behind it @sha256: and 64 hexadecimal digits.
  pub resolve_runtime_iff :
      (choice : Choice) → (resolve_runtime h contract catalog profile ≡ ok choice) ↔ Resolved choice
  resolve_runtime_iff choice = (resolve_runtime-Resolved choice, Resolved-resolve_runtime choice)
