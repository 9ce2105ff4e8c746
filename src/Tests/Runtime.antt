-- ===== src/Tests/Runtime.antt =====
-- A runtime that the catalog has.
use ml_template.Prelude.{
  ◌≡◌, ok, String, codes, Option, some, ◌∷◌, [], text_loops, refl, List, ◌↔◌, map, ◌≢◌,
}
use ml_template.Runtime.Resolver.{ArtifactContract, runtime_fingerprint, runtime_x_v1}
use ml_template.Runtime.Reuse.{resolve_runtime, is_exact_runtime, reuse}
use ml_template.Tests.Data.{digest, host}
use ml_template.Runtime.Requirements.{
  is_space, normalize_requirements, Pins, pinned, text_ltb, pin_text, lines_from,
}
use ml_template.Release.Pairs.{is_digest_codes}
use ml_template.Release.Types.{Text}
use ml_template.Runtime.Reuse.Pinned.{Resolved, resolve_runtime_iff}
use ml_template.Runtime.Requirements.Order.{IsSorted}
use ml_template.Runtime.Requirements.Pins.{Covers, StandsIn, normalize_requirements-IsSorted}

abbrev contract : ArtifactContract
contract = record { python_version = codes "3.12.11"; requirements = codes "numpy==2.1.0" ∷ [] }

abbrev image : String
image =
    "registry/model-service@sha256:0123456789abcdef0123456789abcdef0123456789abcdef0123456789abcdef"

abbrev catalog : String → Option String
catalog fingerprint = some image

finds : resolve_runtime host contract catalog runtime_x_v1 ≡ ok (reuse digest image)
unfolding resolve_runtime runtime_fingerprint is_exact_runtime is_space is_digest_codes text_loops
finds = refl

resolve_runtime_iff_example :
    (resolve_runtime host contract catalog runtime_x_v1 ≡ ok (reuse digest image))
    ↔ Resolved host contract catalog runtime_x_v1 (reuse digest image)
resolve_runtime_iff_example =
    resolve_runtime_iff host contract catalog runtime_x_v1 (reuse digest image)

abbrev requirements : Text
requirements = codes "Foo_.Bar==1.0 # c\n\n zeta == 2.1\r\nABC==0\nfoo-bar==1.0"

abbrev normalized : List Text
normalized = codes "abc==0" ∷ codes "foo-bar==1.0" ∷ codes "zeta==2.1" ∷ []

normalizes : normalize_requirements requirements ≡ ok normalized
unfolding normalize_requirements text_loops pinned text_ltb
normalizes = refl

normalize_requirements-IsSorted_example :
    (pins : Pins) × (normalized ≡ map pin_text pins)
    × (normalized ≢ [])
    × IsSorted pins
    × Covers (lines_from [] requirements) pins
    × ((n v : Text) → pinned n pins ≡ some v → StandsIn (lines_from [] requirements) n v)
normalize_requirements-IsSorted_example = normalize_requirements-IsSorted requirements normalizes
