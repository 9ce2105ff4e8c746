-- ===== src/Release/Controller.antt =====
-- `Controller` of control_plane/controller_v2.py: the lease, one tick of the release state machine,
-- and what it does when an effect raises.
use Prim.Native.String.{◌++◌ as text_append}
use ml_template.Prelude.Actions.{Action, return, lift, when, ◌>>=◌, ◌>>◌}
use ml_template.Prelude.{
  String_eq, ℕ_eq, Bool, String, Result, List, Option, ◌∷◌, ◌&&◌, ℕ, option_beq, if◌then◌else◌,
  Error, none, [], some, err, not, check, leb, key_error, false, result_map, true, busy, ltb, ◌||◌,
  ◌*◌,
}
use ml_template.Release.Types.{Time, ServingPair, PendingItem, blocked, Active, State, Candidate}
use ml_template.Samples.{Policy, Metrics, is_finite, is_negative, equals, unit, up_to, less, assess}
use ml_template.Backend.{Backend, now}
use ml_template.Release.Host.{Host}
use ml_template.Release.Store.{Mutation, update, read, retries}
use ml_template.Release.Stages.{
  request_rollback, update_active, newest, is_leased, claim_candidate, holds_lease, take_lease,
  pair_version,
}
use ml_template.Release.Authorization.{claimable, to_int, candidate_identity}

pub data Lane : Type 0 where
  stable canary : Lane

-- The answer of the router's /state; a key that it lacks is none.
pub record RouterView : Type 0 where
  pub ready : Bool
  pub weight : Option ℕ
  pub revision : Option ℕ

-- The effects that the controller is given (control_plane/kserve_effects.py and observations_v2.py
-- in production), over the world of its store.
pub record Effects (W : Type 0) : Type 0 where
  pub ensure : Lane → ServingPair → String → Action W Bool
  pub is_ready : Lane → ServingPair → String → Action W Bool
  pub router : Action W RouterView
  pub metrics : Action W Metrics

-- the comparison in `ack`
unfoldable pub acknowledges : State → RouterView → Bool
acknowledges s seen =
    seen.ready
    && option_beq seen.weight (some s.route.weight)
    && option_beq seen.revision (some s.route.revision)

-- `authorization`, `pair` and `fingerprint` of a release, as `tick` hands them to the check
unfoldable pub release_identity : Active → Result Candidate
release_identity a = elim a.authorization [
  | none ↦ err key_error
  | some auth ↦ candidate_identity (some a.pair) (some a.fingerprint) auth.evidence.candidate.event
]

-- What the metrics call for, before the dwell time is looked at.
pub data Verdict : Type 0 where
  abort : String → Verdict
  wait_for_traffic healthy : Verdict

-- ",".join(reasons)
unfoldable pub join_reasons : List String → String
join_reasons [] = ""
join_reasons (r ∷ rest) =
    let more = join_reasons rest in
    elim rest [ [] ↦ r | _ ∷ _ ↦ text_append r (text_append "," more) ]

unfoldable pub judge : Policy → Metrics → Verdict
judge policy m =
    if not (is_finite m.up && is_finite m.age && is_finite m.traffic) || is_negative m.traffic
    then abort "invalid_canary_metrics"
    else if not (equals m.up unit && up_to m.age (15 * unit))
    then abort "router_unavailable_or_stale"
    else if less m.traffic (policy.minimum * unit)
    then wait_for_traffic
    else elim (assess m policy.error_limit policy.p95_limit) [
      | [] ↦ healthy
      | r ∷ rest ↦ abort (join_reasons (r ∷ rest))
    ]

module _ (b : Backend State) (h : Host) (effects : Effects b.World) (policy : Policy)
    (owner : String) where
  abbrev Act : Type 0 → Type 0
  Act A = Action b.World A

  -- `if not b: raise e`
  expect : Bool → Error → Act (Unit {0})
  expect test e = lift (check test e)

  nothing : State → Unit {0} × State
  nothing s = (tt, s)

  -- the closure of `acquire`; the clock is read even where the code's `and` stops before it
  unfoldable pub claim_lease : Mutation b Bool
  claim_lease s = do
    t ← now b
    (if is_leased owner t s.lease
        then return (false, s)
        else (do t' ← now b; return (true, take_lease owner t' s)))

  unfoldable pub acquire : Act Bool
  acquire = update b h retries claim_lease

  unfoldable pub guard : State → Act (Unit {0})
  guard s = do t ← now b; lift (check (holds_lease owner t s.lease) (busy "Controller lease lost"))

  -- `change`, of a mutation that returns nothing
  unfoldable pub guarded : (State → Act State) → Mutation b (Unit {0})
  guarded mutate s = do guard s; next ← mutate s; return (tt, next)

  unfoldable pub change : (State → Act State) → Act (Unit {0})
  unfolding guarded
  change mutate = update b h retries (guarded mutate)

  -- a mutation that looks at the clock once, or twice
  unfoldable pub clocked : (Time → State → Result State) → State → Act State
  clocked f s = do t ← now b; lift (f t s)

  unfoldable pub clocked_twice : (Time → Time → State → Result State) → State → Act State
  clocked_twice f s = do t1 ← now b; t2 ← now b; lift (f t1 t2 s)

  unfoldable pub ensure : Lane → ServingPair → String → Act Bool
  ensure lane pair fingerprint = do s ← read b h; guard s; effects.ensure lane pair fingerprint

  unfoldable pub roll_back : String → Act (Unit {0})
  unfolding clocked_twice
  roll_back reason = change (clocked_twice (request_rollback reason policy.timeout))

  unfoldable pub ack : State → Act Bool
  ack s = do seen ← effects.router; return (acknowledges s seen)

  unfoldable pub block : State → Result State
  block = update_active (λ a. record a { phase = blocked })

  unfoldable pub block_if_expired : Active → Act (Unit {0})
  unfolding block
  block_if_expired a = do t ← now b; when (leb a.deadline t) (change (λ s. lift (block s)))

  -- the filter of `claim`: the clock is read for every item
  unfoldable pub eligible : State → ℕ → List PendingItem → Act (List PendingItem)
  eligible s floor [] = return []
  eligible s floor (item ∷ rest) = do
    t ← now b
    fits ←
        (if claimable h s item t
          then lift (result_map (λ v. ltb floor v) (pair_version item))
          else return false)
    others ← eligible s floor rest
    return (if fits then item ∷ others else others)

  unfoldable pub claim_newest : ServingPair → State → List PendingItem → Act State
  unfolding clocked_twice
  claim_newest stable_pair s [] = return s
  claim_newest stable_pair s (item ∷ rest) = do
    candidate ← lift (newest item rest)
    clocked_twice (claim_candidate stable_pair candidate policy.timeout) s

  -- the closure `claim` of `tick`
  unfoldable pub claim : State → Act State
  unfolding eligible claim_newest
  claim s = elim s.stable [
    | none ↦ return s
    | some stable_pair ↦ do
      floor ← lift (to_int stable_pair.model_version)
      items ← eligible s floor s.pending
      claim_newest stable_pair s items
  ]
