-- ===== src/Release/State.antt =====
-- The release state of control_plane/state_v2.py: `audit`, `ingest`, `initial_state` and the
-- checks of `Store.validate`. A function that mutates a snapshot returns the new snapshot; one
-- that raises returns its error alone, since `Store.update` drops the copy that it mutated.
pub mod Ingest
pub mod Replay
use ml_template.Prelude.{
  ◌>>=◌, ◌>>◌, String_eq, ℕ_eq, Option_eq, ℕ, Option, String, none, Result, List, Bool, ok, last_n,
  find, if◌then◌else◌, leb, check, ◌==◌, ◌∷◌, [], is_some, length, ◌++◌, ◌||◌, ◌&&◌, some, or_raise,
  value_error, err, type_error, key_error, busy,
}
use ml_template.Release.Types.{
  Time, ServingPair, Event, Identity, Field, text, accepted, ready_for_release,
  approved_for_release, PendingItem, Active, State, Json,
}
use ml_template.Release.Equality.{Identity_eq, Status_eq}
use ml_template.Release.Host.{Host}
use ml_template.Release.Events.{parse_event, identity}
use ml_template.Release.Pairs.{model, serving_pair, is_digest}
use ml_template.Release.Authorization.{to_int, validate_authorization, item_identity}

abbrev pub history : ℕ
history = 100

abbrev pub max_pending : ℕ
max_pending = 20

unfoldable pub initial_state : Option ServingPair → Option String → Result State
initial_state none fingerprint = ok (record {
  schema_version = 2;
  model_name = model;
  highest_accepted = 0;
  pending = [];
  active = none;
  stable = none;
  stable_fingerprint = fingerprint;
  processed = [];
  failed = [];
  identities = [];
  audit = [];
  route = record { weight = 0; revision = 0 };
  lease = none;
})
initial_state (some stable) fingerprint = do
  serving_pair stable
  digest ← or_raise fingerprint (value_error "Stable runtime fingerprint required")
  check (is_digest digest) (value_error "Stable runtime fingerprint required")
  version ← to_int stable.model_version
  ok (record {
    schema_version = 2;
    model_name = model;
    highest_accepted = version;
    pending = [];
    active = none;
    stable = some stable;
    stable_fingerprint = some digest;
    processed = [];
    failed = [];
    identities = [];
    audit = [];
    route = record { weight = 0; revision = 0 };
    lease = none;
  })

-- `audit(state, reason, now, **fields)`
unfoldable pub audit : State → String → Time → List (String × Field) → State
audit s reason now fields = record s {
  audit =
      last_n history (s.audit ++ (record { time = now; reason = reason; fields = fields }) ∷ []);
}

unfoldable pub new_item : Event → PendingItem
new_item e = record {
  event = e;
  status = accepted;
  attempts = 0;
  next_attempt = 0;
  fingerprint = none;
  build_request = none;
  pair = none;
  error_type = none;
  authorization = none;
}

unfoldable pub same_version : String → Identity → Bool
same_version version known = known.model_version == version

-- `ingest` of an event that `parse_event` has read
unfoldable pub ingest_event : State → Event → ℕ → Result (String × State)
unfolding new_item
ingest_event s e version = elim (find (same_version e.model_version) s.identities) [
  | some known ↦ ok (if known == identity e then "duplicate" else "identity_conflict", s)
  | none ↦
      if leb version s.highest_accepted
      then ok ("stale", s)
      else if leb max_pending (length s.pending)
      then err (busy "Pending promotion bound reached")
      else ok (
        "accepted",
        record s {
          pending = s.pending ++ new_item e ∷ [];
          highest_accepted = version;
          identities = last_n history (s.identities ++ identity e ∷ []);
        },
      )
]

abbrev pub ingest_fields : Event → String → List (String × Field)
ingest_fields e source = ("model_version", text e.model_version) ∷ ("source", text source) ∷ []

module _ (h : Host) where
  -- `ingest`: the outcome, and the state with its audit entry
  unfoldable pub ingest : Json → Time → String → State → Result (String × State)
  unfolding ingest_event
  ingest event now source s = do
    e ← parse_event h event
    version ← to_int e.model_version
    (outcome, next) ← ingest_event s e version
    ok (outcome, audit next outcome now (ingest_fields e source))

  -- The weights that a route may have.
  unfoldable pub is_weight : ℕ → Bool
  is_weight w = w == 0 || w == 10 || w == 25 || w == 50 || w == 100

  check_stable : Option ServingPair → Option String → Result (Unit {0})
  check_stable none fingerprint = ok tt
  check_stable (some stable) fingerprint = do
    serving_pair stable
    digest ← or_raise fingerprint type_error
    check (is_digest digest) (value_error "Invalid stable fingerprint")

  check_active : Option Active → Result (Unit {0})
  check_active none = ok tt
  check_active (some a) = do
    serving_pair a.pair
    serving_pair a.previous_stable
    check (is_digest a.fingerprint && is_digest a.previous_fingerprint)
        (value_error "Invalid active fingerprint")

  check_resolved : PendingItem → Result (Unit {0})
  check_resolved item =
      if item.status == ready_for_release || item.status == approved_for_release
      then (do
        pair ← or_raise item.pair key_error
        serving_pair pair
        check
            (pair.model_version == item.event.model_version
              && pair.storage_uri == item.event.artifact_uri)
            (value_error "Resolved candidate identity mismatch"))
      else ok tt

  check_approval : PendingItem → Result (Unit {0})
  check_approval item =
      if is_some item.authorization || item.status == approved_for_release
      then (do
        check (item.status == approved_for_release)
            (value_error "Authorization on unresolved candidate")
        validate_authorization h item.authorization (item_identity item))
      else ok tt

  unfoldable pub check_item : PendingItem → Result (Unit {0})
  unfolding check_resolved check_approval
  check_item item = check_resolved item >> check_approval item

  unfoldable pub check_items : List PendingItem → Result (Unit {0})
  check_items [] = ok tt
  check_items (item ∷ rest) = check_item item >> check_items rest

  -- The bounds of the collections.
  unfoldable pub within_bounds : State → Bool
  within_bounds s =
      leb (length s.pending) max_pending
      && leb (length s.audit) history
      && leb (length s.identities) history
      && leb (length s.processed) history
      && leb (length s.failed) history

  -- `Store.validate`
  unfoldable pub validate : State → Result (Unit {0})
  unfolding check_stable check_active is_weight within_bounds
  validate s = do
    check (s.schema_version == 2 && s.model_name == model)
        (value_error "Not isolated v2 release state")
    check (is_weight s.route.weight) (value_error "Invalid route state")
    check_stable s.stable s.stable_fingerprint
    check_active s.active
    check_items s.pending
    check (within_bounds s) (busy "State collection bound exceeded")
    check (leb (h.state_size s) 500000) (busy "State byte bound exceeded")
