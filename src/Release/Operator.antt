-- ===== src/Release/Operator.antt =====
-- `recover_resolution` of control_plane/operator_v2.py.
pub mod Retry
use ml_template.Prelude.{
  ◌>>◌, String_eq, ℕ_eq, Option_eq, String, none, Option, Bool, List, Result, some, codes, ◌∷◌, err,
  any, if◌then◌else◌, [], value_error, check, not, filter, ◌==◌, ok, ◌&&◌, leb, length, all,
}
use ml_template.Release.Types.{
  Time, resolution_retry, resolution_blocked, PendingItem, State, Field, text, number, absent,
}
use ml_template.Release.Equality.{Status_eq}
use ml_template.Release.Pairs.{numeric_version}
use ml_template.Release.Authorization.{has_version}
use ml_template.Runtime.Requirements.{is_space}
use ml_template.Release.State.{audit}

-- the check of `operator` and `note`
unfoldable pub is_note : String → Bool
is_note value =
    let c = codes value in
    any (λ d. not (is_space d)) c && leb (length c) 256 && all (λ d. leb 32 d) c

unfoldable pub retry_item : Time → PendingItem → PendingItem
retry_item t item = record item {
  status = resolution_retry;
  attempts = 0;
  next_attempt = t;
  error_type = none;
}

unfoldable pub retry_version : String → Time → List PendingItem → List PendingItem
retry_version version t [] = []
retry_version version t (item ∷ rest) =
    if has_version version item
    then retry_item t item ∷ rest
    else item ∷ retry_version version t rest

error_field : Option String → Field
error_field none = absent
error_field (some e) = text e

retry_fields : String → String → String → PendingItem → List (String × Field)
retry_fields version operator note item =
    ("model_version", text version)
    ∷ ("operator", text operator)
    ∷ ("note", text note)
    ∷ ("previous_status", text "RESOLUTION_BLOCKED")
    ∷ ("previous_attempts", number item.attempts)
    ∷ ("previous_error_type", error_field item.error_type)
    ∷ []

-- the closure `mutate`, on the items with the version
retry_matches : String → String → String → Time → State → List PendingItem → Result (String × State)
unfolding retry_fields error_field
retry_matches version operator note t s [] = err (value_error "resolution_version_not_unique")
retry_matches version operator note t s (item ∷ []) = do
  check (item.status == resolution_blocked) (value_error "resolution_not_blocked")
  ok (
    version,
    audit (record s { pending = retry_version version t s.pending }) "operator_resolution_retry" t
        (retry_fields version operator note item),
  )
retry_matches version operator note t s (item ∷ next ∷ rest) =
    err (value_error "resolution_version_not_unique")

-- `recover_resolution`: its checks, and the mutation
unfoldable pub recover_resolution :
    String → String → String → Time → State → Result (String × State)
unfolding retry_matches
recover_resolution version operator note t s = do
  numeric_version version
  check (is_note operator) (value_error "invalid_operator")
  check (is_note note) (value_error "invalid_note")
  retry_matches version operator note t s (filter (has_version version) s.pending)
