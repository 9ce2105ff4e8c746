-- ===== src/Legacy/Stages.antt =====
-- The closures that `Controller` of control_plane/controller.py hands to the store: what each makes
-- of a snapshot, given the readings of the clock that it takes.
pub mod Removal
use ml_template.Prelude.{
  ℕ, String, if◌then◌else◌, some, Option, Result, Bool, List, none, last_n, err, true, not, ltb,
  ◌∷◌, false, ◌>>=◌, ◌==◌, ◌+◌, ◌++◌, other_error, [], ok, or_raise, ◌*◌, ◌&&◌, ◌||◌, ℕ_eq,
  key_error, String_eq,
}
use ml_template.Release.Types.{
  text, number, Phase, Time, preparing, ramp, finalizing, draining, rollback, blocked, Lease,
}
use ml_template.Legacy.Types.{State, Release, Active, Failure, epoch}
use ml_template.Legacy.Queue.{audit, history}
use ml_template.Release.Stages.{second}

-- `route(state, weight)`
unfoldable pub route : State → ℕ → State
route s weight =
    if s.route.weight == weight
    then s
    else record s { route = record { weight = weight; revision = s.route.revision + 1 } }

-- the lease that `acquire` takes
unfoldable pub take_lease : String → Time → State → State
take_lease owner t s = record s { lease = some (record { owner = owner; until = t + 60 * second }) }

-- the test of `change`: the lease is ours and has not run out
unfoldable pub owns_lease : String → Time → Option Lease → Bool
owns_lease owner t none = false
owns_lease owner t (some l) = l.owner == owner && ltb t l.until

-- `s['active'].update(...)`, which raises if there is no release
unfoldable pub update_active : (Active → Active) → State → Result State
update_active f s = elim s.active [
  | none ↦ err other_error
  | some a ↦ ok (record s { active = some (f a) })
]

-- `phase in ('DRAINING','ROLLBACK','BLOCKED')`
abbrev pub is_settled : Phase → Bool
is_settled draining = true
is_settled rollback = true
is_settled blocked = true
is_settled _ = false

unfoldable pub is_finalizing : Phase → Bool
is_finalizing finalizing = true
is_finalizing _ = false

rolling : String → Time → Active → Active
unfolding is_finalizing
rolling reason deadline a = record a {
  phase = rollback;
  reason = some reason;
  deadline = deadline;
  restore_stable = is_finalizing a.phase;
}

-- before the finalizing phase the stable release is unchanged, and gets all traffic at once
unfoldable pub start_rollback : String → Time → Time → Active → State → State
unfolding is_finalizing rolling
start_rollback reason deadline t a s =
    audit
      (if is_finalizing a.phase
        then record s { active = some (rolling reason deadline a) }
        else route (record s { active = some (rolling reason deadline a) }) 0)
      "rollback_requested" t
      (("digest", text a.candidate.digest) ∷ ("reason_detail", text reason) ∷ [])

-- a candidate that is newer than the stable release
unfoldable pub is_newer : Release → Release → Bool
is_newer stable c =
    not (c.digest == stable.digest)
    && (ltb stable.version c.version
        || (c.version == stable.version
            && (stable.source_time == epoch || ltb stable.source_time c.source_time)))

-- the order of the keys (version, source_time)
unfoldable pub is_older : Release → Release → Bool
is_older a b =
    ltb a.version b.version || (a.version == b.version && ltb a.source_time b.source_time)

-- `max(eligible, key=...)`, the first of the highest
unfoldable pub newest : Release → List Release → Release
newest best [] = best
newest best (c ∷ rest) = newest (if is_older best c then c else best) rest

same_release : Release → Release → Bool
same_release a b = a.version == b.version && a.digest == b.digest && a.source_time == b.source_time

-- `pending.remove(candidate)`, the first of that value
unfoldable pub remove : Release → List Release → List Release
unfolding same_release
remove c [] = []
remove c (x ∷ rest) = if same_release x c then rest else x ∷ remove c rest

unfoldable pub new_release : Release → Release → Time → Active
new_release c stable deadline = record {
  candidate = c;
  phase = preparing;
  deadline = deadline;
  stage_since = none;
  previous_stable = stable;
  reason = none;
  restore_stable = false;
}

-- the end of `claim`, once the pending candidates have been filtered
unfoldable pub start_release : List Release → Release → Time → Time → State → State
unfolding new_release remove
start_release eligible c deadline t s =
    audit
      (route
        (record s { pending = remove c eligible; active = some (new_release c s.stable deadline) })
        0)
      "release_started" t (("digest", text c.digest) ∷ ("version", number c.version) ∷ [])

-- `arm`
unfoldable pub arm : Time → Time → State → Result State
arm timeout t s = do
  armed ←
      update_active (λ a. record a { phase = ramp; stage_since = none; deadline = t + timeout }) s
  ok (route armed 10)

-- `advance`; the metrics of its audit entry are output only
unfoldable pub advance_stage : String → ℕ → ℕ → Time → Time → Time → State → Result State
advance_stage digest weight new timeout t1 t2 s = do
  next ← update_active (λ a. record a { stage_since = none; deadline = t1 + timeout }) (route s new)
  ok (
      audit next "stage_pass" t2 (
        ("digest", text digest) ∷ ("previous_weight", number weight) ∷ ("weight", number new) ∷ []))

-- the closure that ends the stages
unfoldable pub start_finalizing : Time → Time → State → Result State
start_finalizing timeout t =
    update_active (λ a. record a { phase = finalizing; deadline = t + timeout })

-- `finalize`
unfoldable pub finalize : Release → Time → Time → Time → State → Result State
finalize c timeout t1 t2 s = do
  next ←
      update_active (λ a. record a { phase = draining; deadline = t1 + timeout })
        (route (record s { stable = c }) 0)
  ok (
      audit next "stable_committed" t2
        (("digest", text c.digest) ∷ ("version", number c.version) ∷ []))

-- `complete`
unfoldable pub complete : String → Time → State → State
complete digest t s =
    audit (record s { processed = last_n history (s.processed ++ digest ∷ []); active = none })
      "release_promoted" t (("digest", text digest) ∷ [])

-- `restored`
unfoldable pub restored : State → Result State
restored s = update_active (λ a. record a { restore_stable = false }) (route s 0)

a_failure : Release → String → Time → Failure
a_failure c reason t = record { candidate = c; reason = reason; time = t }

-- `complete_rollback`
unfoldable pub complete_rollback : Active → Time → Time → State → Result State
unfolding a_failure
complete_rollback a t1 t2 s = do
  reason ← or_raise a.reason key_error
  let failure = a_failure a.candidate reason t1
  ok (
      audit (record s { failed = last_n history (s.failed ++ failure ∷ []); active = none })
        "release_rolled_back" t2 (("digest", text a.candidate.digest) ∷ []))
