-- ===== src/Legacy/Candidates.antt =====
-- Which images are candidates: `parse_candidate`, `event_candidate` and `reconcile_candidates` of
-- control_plane/state.py.
pub mod Choice
use ml_template.Prelude.{
  ◌++◌, ◌>>=◌, ok, ℕ, String, List, Option, some, none, ◌==◌, ◌∷◌, [], String_eq, ℕ_eq,
  if◌then◌else◌, ◌&&◌, not, ◌*◌, ◌+◌, list_beq, ltb, Bool, Result, filter, true, codes, ◌||◌, err,
  false, ◌^◌, ◌-◌, other_error,
}
use ml_template.Legacy.Types.{Release, Library, Stamp, epoch, object, truth, sequence, nothing}
use ml_template.Legacy.Types.{Entries, Value, entry, text, end, number}
use ml_template.Runtime.Requirements.{text_ltb}
use ml_template.Release.Pairs.{is_digest}

abbrev pub model : String
model = "credit-risk-classifier"

abbrev pub image_repository : String
image_repository = "mlflow-models"

abbrev pub registry : String
registry = "378457871131"

abbrev pub region : String
region = "ap-southeast-1"

-- A candidate, or the reason why there is none.
pub data Parsed : Type 0 where
  refused : String → Parsed
  candidate : Release → Parsed

option_then : {A B : Type 0} → Option A → (A → Option B) → Option B
option_then none f = none
option_then (some a) f = f a

-- `d.get(key)`
get : String → Entries → Option Value
get key end = none
get key (entry k v rest) = if k == key then some v else get key rest

as_object : Option Value → Option Entries
as_object (some (object entries)) = some entries
as_object _ = none

as_text : Option Value → Option String
as_text (some (text t)) = some t
as_text _ = none

-- `value == s`
has_text : String → Option Value → Bool
has_text s (some (text t)) = t == s
has_text s _ = false

-- `d.get(key, s) == s`
may_be : String → Option Value → Bool
unfolding has_text
may_be s none = true
may_be s (some v) = has_text s (some v)

-- An entry of `imageDetails`, as ECR documents it.
pub record Image : Type 0 where
  pub pushed_at : Option Stamp
  pub tags : List String
  pub digest : Option String

pushed_time : Image → Stamp
pushed_time image = elim image.pushed_at [ none ↦ epoch | some t ↦ t ]

-- `max(x['version'] for x in candidates)`
unfoldable pub highest_version : ℕ → List Release → ℕ
highest_version best [] = best
highest_version best (c ∷ rest) =
    highest_version (if ltb best c.version then c.version else best) rest

-- the order of the keys (source_time, digest)
unfoldable pub is_earlier : Release → Release → Bool
is_earlier a b =
    ltb a.source_time b.source_time
    || (a.source_time == b.source_time && text_ltb (codes a.digest) (codes b.digest))

-- `max(choices, key=...)`, the first of the latest
unfoldable pub latest : Release → List Release → Release
latest best [] = best
latest best (c ∷ rest) = latest (if is_earlier best c then c else best) rest

newest_of : List Release → List Release
newest_of [] = []
newest_of (first ∷ choices) = latest first choices ∷ []

-- the newest of the candidates with the highest version
unfoldable pub newest_of_highest : List Release → List Release
unfolding newest_of
newest_of_highest [] = []
newest_of_highest (c ∷ others) =
    newest_of (filter (λ x. x.version == highest_version c.version others) (c ∷ others))

module _ (lib : Library) where
  -- `int(digits)` after the digits read so far, none if one is no digit
  number_from : ℕ → List ℕ → Option ℕ
  number_from n [] = some n
  number_from n (c ∷ s) = elim (lib.digit_value c) [
    | none ↦ none
    | some d ↦ number_from (n * 10 + d) s
  ]

  -- v\d+
  version_tail : List ℕ → Option ℕ
  unfolding number_from
  version_tail (v ∷ d ∷ more) = if v == b'v' then number_from 0 (d ∷ more) else none
  version_tail _ = none

  -- The match of (?P<model>.+)-v(?P<version>\d+), after the characters of the model read so far.
  -- Digits hold no hyphen, so at most one split matches.
  match_tag : List ℕ → List ℕ → Option (List ℕ × ℕ)
  unfolding version_tail
  match_tag before [] = none
  match_tag before (c ∷ s) =
      let later = match_tag (before ++ c ∷ []) s in
      let here = if c == b'-' && not (list_beq before []) then version_tail s else none in
      if c == b'\n' then none else elim here [ none ↦ later | some n ↦ some (before, n) ]

  -- `parse_candidate`; a tag or a digest that is no text is none
  unfoldable pub parse_candidate : Option String → Option String → Stamp → Parsed
  unfolding match_tag option_then
  parse_candidate tag digest source_time = elim (option_then tag (λ t. match_tag [] (codes t))) [
    | none ↦ refused "noncanonical"
    | some (name, version) ↦
        if not (list_beq name (codes model)) then refused "model_not_allowed" else elim digest [
          | none ↦ refused "invalid_digest"
          | some d ↦
              if not (is_digest d)
              then refused "invalid_digest"
              else if version == 0 || ltb (2 ^ 31 - 1) version
              then refused "invalid_version"
              else candidate (record { version = version; digest = d; source_time = source_time })
        ]
  ]

  -- `datetime.fromisoformat(raw.replace('Z', '+00:00')).timestamp() if raw else 0`. A value that is
  -- no text has no `replace`, which raises an AttributeError that nothing here catches.
  event_time : Option Value → Result (Option Stamp)
  event_time none = ok (some epoch)
  event_time (some nothing) = ok (some epoch)
  event_time (some (truth false)) = ok (some epoch)
  event_time (some (number false)) = ok (some epoch)
  event_time (some (sequence false)) = ok (some epoch)
  event_time (some (object end)) = ok (some epoch)
  event_time (some (text raw)) = ok (if raw == "" then some epoch else lib.timestamp raw)
  event_time (some _) = err other_error

  -- `event_candidate`, once the event and its detail are mappings
  image_pushed : Entries → Entries → Result Parsed
  unfolding event_time has_text get may_be as_text
  image_pushed event detail =
      if not (has_text "ECR Image Action" (get "detail-type" event))
      then ok (refused "wrong_event_type")
      else if not (may_be "aws.ecr" (get "source" event))
      then ok (refused "wrong_source")
      else if not (may_be registry (get "account" event) && may_be region (get "region" event))
      then ok (refused "wrong_origin")
      else if not (has_text "PUSH" (get "action-type" detail))
      then ok (refused "wrong_action")
      else if not (has_text "SUCCESS" (get "result" detail))
      then ok (refused "failed_push")
      else if not (has_text image_repository (get "repository-name" detail))
      then ok (refused "wrong_repository")
      else (event_time (get "time" event) >>= λ stamp. ok (elim stamp [
        | none ↦ refused "invalid_event"
        | some t ↦
            parse_candidate (as_text (get "image-tag" detail)) (as_text (get "image-digest" detail))
              t
      ]))

  -- `event_candidate`
  unfoldable pub event_candidate : String → Result Parsed
  unfolding image_pushed as_object get
  event_candidate body = elim (lib.json_loads body) [
    | err _ ↦ ok (refused "invalid_event")
    | ok decoded ↦ elim (as_object (some decoded)) [
      | none ↦ ok (refused "invalid_event")
      | some event ↦ elim (as_object (get "detail" event)) [
        | none ↦ ok (refused "invalid_event")
        | some detail ↦ image_pushed event detail
      ]
    ]
  ]

  candidates_of : Image → List String → List Release
  unfolding pushed_time
  candidates_of image [] = []
  candidates_of image (tag ∷ tags) =
      let others = candidates_of image tags in
      elim (parse_candidate (some tag) image.digest (pushed_time image)) [
        | refused _ ↦ others
        | candidate c ↦ c ∷ others
      ]

  unfoldable pub all_candidates : List Image → List Release
  unfolding candidates_of
  all_candidates [] = []
  all_candidates (image ∷ images) = candidates_of image image.tags ++ all_candidates images

  -- `reconcile_candidates`
  unfoldable pub reconcile_candidates : List Image → List Release
  unfolding newest_of_highest
  reconcile_candidates images = newest_of_highest (all_candidates images)
