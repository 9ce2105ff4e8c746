-- ===== src/Release/Stages.antt =====
-- The mutations of control_plane/controller_v2.py: what each closure that `Controller` hands to
-- the store makes of a snapshot, given the readings of the clock that it takes.
pub mod Leases
pub mod Recovery
use ml_template.Prelude.{
  String_eq, ℕ_eq, ℕ, Bool, String, Result, List, Option, true, if◌then◌else◌, some, false, ok,
  none, last_n, ◌>>=◌, not, err, or_raise, ◌∷◌, ◌==◌, ◌+◌, other_error, [], type_error, key_error,
  ltb, ◌*◌, ◌&&◌, ◌++◌,
}
use ml_template.Release.Types.{
  Time, ServingPair, Field, text, number, a_pair, absent, Authorization, PendingItem, Phase,
  preparing, ramp, finalizing, draining, rollback, blocked, Active, Lease, State,
}
use ml_template.Release.State.{audit, history}
use ml_template.Release.Authorization.{to_int}

abbrev pub second : ℕ
second = 1000000

unfoldable pub phase_beq : Phase → Phase → Bool
phase_beq preparing preparing = true
phase_beq ramp ramp = true
phase_beq finalizing finalizing = true
phase_beq draining draining = true
phase_beq rollback rollback = true
phase_beq blocked blocked = true
phase_beq _ _ = false

-- `phase in ("ROLLBACK", "BLOCKED")`
abbrev pub is_recovery : Phase → Bool
is_recovery rollback = true
is_recovery blocked = true
is_recovery _ = false

-- `route(state, weight)`
unfoldable pub route : State → ℕ → State
route s weight =
    if s.route.weight == weight
    then s
    else record s { route = record { weight = weight; revision = s.route.revision + 1 } }

-- the lease that `acquire` takes
unfoldable pub take_lease : String → Time → State → State
take_lease owner t s = record s { lease = some (record { owner = owner; until = t + 60 * second }) }

-- the test of `acquire`: another owner's lease that has not run out
unfoldable pub is_leased : String → Time → Option Lease → Bool
is_leased owner t none = false
is_leased owner t (some l) = not (l.owner == owner) && ltb t l.until

-- `guard`: the lease is ours for ten seconds more
unfoldable pub holds_lease : String → Time → Option Lease → Bool
holds_lease owner t none = false
holds_lease owner t (some l) = l.owner == owner && ltb (t + 10 * second) l.until

-- `state["active"].update(...)`, which raises if there is no release
unfoldable pub update_active : (Active → Active) → State → Result State
update_active f s = elim s.active [
  | none ↦ err other_error
  | some a ↦ ok (record s { active = some (f a) })
]

-- the release that a rollback turns into a recovery
unfoldable pub start_rollback : String → Time → Time → Active → State → State
start_rollback reason deadline t a s =
    audit
      (route
        (record s {
          active = some (record a { phase = rollback; reason = some reason; deadline = deadline });
        })
        0)
      "rollback_requested" t (("detail", text reason) ∷ [])

-- the closure of `rollback`; the clock is read twice
unfoldable pub request_rollback : String → Time → Time → Time → State → Result State
unfolding start_rollback
request_rollback reason timeout t1 t2 s = elim s.active [
  | none ↦ err type_error
  | some a ↦ if is_recovery a.phase then ok s else ok (start_rollback reason (t1 + timeout) t2 a s)
]

-- `int(x["pair"]["model_version"])` of an item that is claimable
unfoldable pub pair_version : PendingItem → Result ℕ
pair_version item = do pair ← or_raise item.pair key_error; to_int pair.model_version

-- `max(eligible, key=...)`: the first of the highest
newest_from : PendingItem → ℕ → List PendingItem → Result PendingItem
newest_from best version [] = ok best
newest_from best version (item ∷ rest) = do
  v ← pair_version item
  (if ltb version v then newest_from item v rest else newest_from best version rest)

unfoldable pub newest : PendingItem → List PendingItem → Result PendingItem
unfolding newest_from
newest first rest = do v ← pair_version first; newest_from first v rest

-- the pending items above a version
unfoldable pub above : ℕ → List PendingItem → Result (List PendingItem)
above version [] = ok []
above version (item ∷ rest) = do
  v ← to_int item.event.model_version
  kept ← above version rest
  ok (if ltb version v then item ∷ kept else kept)

-- the release of a candidate, whose entries `claimable` has found
unfoldable pub new_release :
    ServingPair → String → Authorization → ServingPair → String → Time → Active
new_release pair fingerprint auth stable stable_fingerprint deadline = record {
  pair = pair;
  fingerprint = fingerprint;
  phase = preparing;
  previous_stable = stable;
  previous_fingerprint = stable_fingerprint;
  deadline = deadline;
  stage_since = none;
  authorization = some auth;
  reason = none;
}

-- the end of the closure `claim`, once a candidate is chosen
unfoldable pub claim_candidate :
    ServingPair → PendingItem → Time → Time → Time → State → Result State
unfolding new_release
claim_candidate stable candidate timeout t1 t2 s = do
  pair ← or_raise candidate.pair key_error
  version ← to_int pair.model_version
  pending ← above version s.pending
  fingerprint ← or_raise candidate.fingerprint key_error
  stable_fingerprint ← or_raise s.stable_fingerprint type_error
  auth ← or_raise candidate.authorization key_error
  let a = new_release pair fingerprint auth stable stable_fingerprint (t1 + timeout)
  ok (
      audit (route (record s { pending = pending; active = some a }) 0) "release_started" t2
        (("pair", a_pair pair) ∷ ("authorization_id", text auth.evidence_hash) ∷ []))

-- `arm`
unfoldable pub arm : Time → Time → State → Result State
arm timeout t s = do
  armed ←
      update_active (λ a. record a { phase = ramp; stage_since = none; deadline = t + timeout }) s
  ok (route armed 10)

-- {10: 25, 25: 50, 50: 100}[weight]
unfoldable pub next_weight : ℕ → Result ℕ
next_weight w =
    if w == 10 then ok 25 else if w == 25 then ok 50 else if w == 50 then ok 100 else err key_error

-- `advance` within `Controller.advance`: the closure that promotes one stage
unfoldable pub promote_stage : ℕ → Time → Time → Time → State → Result State
promote_stage weight timeout t1 t2 s = do
  next ←
      (if weight == 100
        then update_active (λ a. record a { phase = finalizing; deadline = t1 + timeout }) s
        else (next_weight weight >>= λ w.
            update_active (λ a. record a { stage_since = none; deadline = t1 + timeout })
              (route s w)))
  ok (audit next "stage_promoted" t2 (("previous_weight", number weight) ∷ []))

-- `commit`
unfoldable pub commit_stable : ServingPair → String → Time → Time → Time → State → Result State
commit_stable pair fingerprint timeout t1 t2 s = do
  next ←
      update_active (λ a. record a { phase = draining; deadline = t1 + timeout })
        (record s { stable = some pair; stable_fingerprint = some fingerprint })
  ok (audit (route next 0) "stable_committed" t2 (("pair", a_pair pair) ∷ []))

authorization_id : Option Authorization → Field
authorization_id none = absent
authorization_id (some auth) = text auth.evidence_hash

-- `complete`
unfoldable pub complete : ServingPair → Option Authorization → Time → State → State
unfolding authorization_id
complete pair auth t s =
    audit (record s { processed = last_n history (s.processed ++ pair ∷ []); active = none })
      "release_completed" t
      (("pair", a_pair pair) ∷ ("authorization_id", authorization_id auth) ∷ [])

-- `restored`
unfoldable pub restored : Active → Time → State → State
unfolding authorization_id
restored a t s =
    audit
      (record s {
        stable = some a.previous_stable;
        stable_fingerprint = some a.previous_fingerprint;
        failed = last_n history (s.failed ++ (record { pair = a.pair; reason = a.reason }) ∷ []);
        active = none;
      })
      "rollback_completed" t
      (("previous_stable", a_pair a.previous_stable)
        ∷ ("authorization_id", authorization_id a.authorization)
        ∷ [])
