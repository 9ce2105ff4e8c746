-- ===== src/Release/Authorize.antt =====
-- `authorize` of control_plane/authorization_v2.py: the write of the protected release job.
pub mod Cases
use ml_template.Prelude.{
  ◌>>=◌, ◌>>◌, String_eq, ℕ_eq, Option_eq, String, Option, List, Result, some, ◌∷◌, option_map,
  check, ◌+◌, if◌then◌else◌, [], leb, is_none, ◌==◌, value_error, not, or_raise, key_error, ok,
  find, other_error, none,
}
use ml_template.Release.Types.{
  Time, Evidence, Authorization, Baseline, approved_for_release, PendingItem, State, Field, text,
  a_source, absent,
}
use ml_template.Release.Equality.{Baseline_eq, Evidence_eq}
use ml_template.Release.Host.{Host}
use ml_template.Release.Authorization.{
  evidence_baseline, snapshot, ttl, has_version, validate_authorization, item_identity, claimable,
}
use ml_template.Release.State.{audit}

-- `item.update(status=..., authorization=...)` of the first item with that version
unfoldable pub approve : String → Authorization → List PendingItem → List PendingItem
approve version auth [] = []
approve version auth (item ∷ rest) =
    if has_version version item
    then (record item { status = approved_for_release; authorization = some auth }) ∷ rest
    else item ∷ approve version auth rest

optional_text : Option String → Field
optional_text none = absent
optional_text (some s) = text s

authorize_fields : Option Authorization → String → Authorization → Evidence → List (String × Field)
authorize_fields previous version auth expected =
    (
      "previous_authorization_id",
      optional_text (option_map (λ (a : Authorization). a.evidence_hash) previous),
    )
    ∷ ("model_version", text version)
    ∷ ("authorization_id", text auth.evidence_hash)
    ∷ ("source", a_source expected.source)
    ∷ ("ticket_reference", text expected.ticket_reference)
    ∷ []

module _ (h : Host) where
  -- a new authorization of the item, and the state that has it
  grant : Evidence → Time → State → PendingItem → Result (Authorization × State)
  unfolding approve authorize_fields optional_text
  grant expected now s item = do
    let auth : Authorization = record {
      evidence = expected;
      evidence_hash = h.evidence_hash expected;
      authorized_at = now;
      expires_at = now + ttl;
    }
    validate_authorization h (some auth) (item_identity item)
    pair ← or_raise item.pair key_error
    let approved : State = record s {
      pending = approve expected.candidate.pair.model_version auth s.pending;
    }
    let reason = if is_none item.authorization then "release_authorized" else "release_reauthorized"
    ok (
      auth,
      audit approved reason now
          (authorize_fields item.authorization pair.model_version auth expected),
    )

  -- what a renewal must meet
  check_renewal : Evidence → Time → Baseline → Authorization → Result (Unit {0})
  check_renewal expected now actual previous = do
    check (leb previous.expires_at now) (value_error "already_authorized_by_another_run")
    check (expected.supersedes == some previous.evidence_hash)
        (value_error "stale_previous_authorization")
    check (not (expected.source.run_id == previous.evidence.source.run_id))
        (value_error "fresh_release_run_required")
    check (leb previous.expires_at expected.created_at) (value_error "fresh_preflight_required")
    check (actual == evidence_baseline h previous.evidence)
        (value_error "original_baseline_changed")

  decide_grant :
      Evidence
      → Time
      → State
      → Baseline
      → PendingItem
      → Option Authorization
      → Result (Authorization × State)
  unfolding grant check_renewal
  decide_grant expected now s actual item none = do
    check (is_none expected.supersedes) (value_error "previous_authorization_missing")
    grant expected now s item
  decide_grant expected now s actual item (some previous) =
      if previous.evidence == expected
      then (check (claimable h s item now) (value_error "authorization_expired_or_stale")
          >> ok (previous, s))
      else (check_renewal expected now actual previous >> grant expected now s item)

  -- the mutation that `authorize` hands to `Store.update`
  unfoldable pub authorize : Evidence → Time → State → Result (Authorization × State)
  unfolding decide_grant evidence_baseline
  authorize expected now s = do
    actual ← snapshot h s expected.candidate.pair.model_version
    check (actual == evidence_baseline h expected) (value_error "stale_candidate_evidence")
    item ← or_raise (find (has_version expected.candidate.pair.model_version) s.pending) other_error
    decide_grant expected now s actual item item.authorization
