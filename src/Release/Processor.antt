-- ===== src/Release/Processor.antt =====
-- `Processor` of control_plane/processor_v2.py: one pending event is resolved to a runtime image, a
-- build request, or a later attempt.
pub mod Commits
use ml_template.Prelude.Actions.{Action, return, lift, catch, ◌>>=◌}
use ml_template.Prelude.{
  String_eq, ℕ_eq, String, some, Bool, ℕ, Error, List, Option, true, min, ◌∷◌, find, ◌+◌, ◌==◌,
  value_error, false, if◌then◌else◌, none, ◌*◌, busy, leb, ◌^◌, key_error, [], type_error, is_some,
  conflict, transport, http, other_error,
}
use ml_template.Release.Types.{
  Time, ServingPair, Event, BuildRequest, Status, accepted, resolution_retry, resolution_blocked,
  build_required, ready_for_release, approved_for_release, PendingItem, State, text, RuntimeProfile,
}
use ml_template.Release.Equality.{Event_eq, PendingItem_eq, Status_eq}
use ml_template.Backend.{Backend, now}
use ml_template.Runtime.Resolver.{
  ArtifactContract, runtime_fingerprint, runtime_x_v1, runtime_ci_v2, build_request,
}
use ml_template.Release.Host.{Host}
use ml_template.Release.Pairs.{serving_pair}
use ml_template.Release.Store.{Mutation, read, update, retries}
use ml_template.Release.State.{audit}

-- The metadata source and the runtime catalog that the processor is given.
pub record Resolution (W : Type 0) : Type 0 where
  pub inspect : String → Action W ArtifactContract
  pub lookup : String → Action W (Option String)

-- The entries that `current.update(result)` sets.
pub data Outcome : Type 0 where
  resolved : String → BuildRequest → Time → Option ServingPair → Outcome
  failed : ℕ → Status → Time → String → Outcome

unfoldable pub status_name : Status → String
status_name accepted = "ACCEPTED"
status_name resolution_retry = "RESOLUTION_RETRY"
status_name resolution_blocked = "RESOLUTION_BLOCKED"
status_name build_required = "BUILD_REQUIRED"
status_name ready_for_release = "READY_FOR_RELEASE"
status_name approved_for_release = "APPROVED_FOR_RELEASE"

unfoldable pub outcome_status : Outcome → Status
outcome_status (resolved fingerprint request next none) = build_required
outcome_status (resolved fingerprint request next (some pair)) = ready_for_release
outcome_status (failed attempts status next error) = status

unfoldable pub apply_outcome : Outcome → PendingItem → PendingItem
unfolding outcome_status
apply_outcome (resolved fingerprint request next none) item = record item {
  status = build_required;
  fingerprint = some fingerprint;
  build_request = some request;
  next_attempt = next;
  attempts = 0;
}
apply_outcome (resolved fingerprint request next (some pair)) item = record item {
  status = ready_for_release;
  fingerprint = some fingerprint;
  build_request = some request;
  next_attempt = next;
  attempts = 0;
  pair = some pair;
}
apply_outcome (failed attempts status next error) item = record item {
  status = status;
  attempts = attempts;
  next_attempt = next;
  error_type = some error;
}

-- `x["status"] in ("ACCEPTED", "RESOLUTION_RETRY", "BUILD_REQUIRED")`
unfoldable pub is_unresolved : Status → Bool
is_unresolved accepted = true
is_unresolved resolution_retry = true
is_unresolved build_required = true
is_unresolved _ = false

-- min(900, 15 * 2**attempts) seconds
unfoldable pub backoff : ℕ → Time
backoff attempts = min (900 * 1000000) (15 * 2 ^ attempts * 1000000)

-- the result of an attempt that raised
unfoldable pub failed_attempt : ℕ → PendingItem → Time → String → Outcome
unfolding backoff
failed_attempt max_attempts item t error =
    let attempts = item.attempts + 1 in
    failed attempts (if leb max_attempts attempts then resolution_blocked else resolution_retry)
      (t + backoff attempts) error

unfoldable pub has_event : Event → PendingItem → Bool
has_event e item = item.event == e

-- the first pending item with the event, replaced
unfoldable pub replace_event : Event → PendingItem → List PendingItem → List PendingItem
replace_event e new [] = []
replace_event e new (item ∷ rest) =
    if has_event e item then new ∷ rest else item ∷ replace_event e new rest

-- the closure `commit`
unfoldable pub commit_outcome : PendingItem → Outcome → Time → State → String × State
unfolding replace_event has_event outcome_status status_name
commit_outcome snapshot outcome t s = elim (find (has_event snapshot.event) s.pending) [
  | none ↦ ("superseded", s)
  | some current ↦
      if current == snapshot
      then (
        status_name (outcome_status outcome),
        audit
            (record s {
              pending = replace_event snapshot.event (apply_outcome outcome current) s.pending;
            })
            (status_name (outcome_status outcome)) t
            (("model_version", text snapshot.event.model_version) ∷ []),
      )
      else ("superseded", s)
]

-- The parameters: the store and the host; the source of metadata and the catalog; the number of
-- attempts; the name of the class of an exception.
module _ (b : Backend State) (h : Host) (resolution : Resolution b.World) (max_attempts : ℕ)
    (class_of : Error → String) where
  abbrev Act : Type 0 → Type 0
  Act A = Action b.World A

  due : List PendingItem → Act (List PendingItem)
  due [] = return []
  due (item ∷ rest) = do
    fits ←
        (if is_unresolved item.status
          then (do t ← now b; return (leb item.next_attempt t))
          else return false)
    others ← due rest
    return (if fits then item ∷ others else others)

  resolve_pair : Event → Option String → Act (Option ServingPair)
  resolve_pair e none = return none
  resolve_pair e (some image) = do
    pair ← lift (
        serving_pair (record {
          model_version = e.model_version;
          runtime_digest = image;
          storage_uri = e.artifact_uri;
        }))
    return (some pair)

  -- a lookup under each profile, the older one first
  find_runtime : ArtifactContract → Act (RuntimeProfile × Option String)
  find_runtime contract = do
    old ← resolution.lookup (runtime_fingerprint h contract runtime_x_v1)
    (if is_some old then return (runtime_x_v1, old) else (do
      new ← resolution.lookup (runtime_fingerprint h contract runtime_ci_v2)
      return (runtime_ci_v2, new)))

  -- the body of the `try`
  unfoldable pub resolve : Event → Act Outcome
  unfolding find_runtime resolve_pair
  resolve e = do
    contract ← resolution.inspect e.artifact_uri
    (profile, image) ← find_runtime contract
    t ← now b
    pair ← resolve_pair e image
    return (
        resolved (runtime_fingerprint h contract profile) (build_request h contract profile)
          (t + 900 * 1000000) pair)

  give_up : PendingItem → Error → Act Outcome
  give_up item e = do t ← now b; return (failed_attempt max_attempts item t (class_of e))

  commit_now : PendingItem → Outcome → Mutation b String
  commit_now snapshot outcome s = do t ← now b; return (commit_outcome snapshot outcome t s)

  process : List PendingItem → Act (Option String)
  unfolding resolve give_up commit_now
  process [] = return none
  process (snapshot ∷ _) = do
    outcome ← catch (resolve snapshot.event) (give_up snapshot)
    status ← update b h retries (commit_now snapshot outcome)
    return (some status)

  -- `Processor.tick`
  unfoldable pub tick : Act (Option String)
  unfolding process due
  tick = do s ← read b h; items ← due s.pending; process items
