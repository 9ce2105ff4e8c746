-- ===== src/Legacy/Tick.antt =====
-- `Controller.tick` of control_plane/controller.py.
pub mod Keeping
pub mod Writes
pub mod Chain
pub mod Bounds
use ml_template.Prelude.Actions.{Action, return, raise, lift, when, catch, ◌>>=◌, ◌>>◌}
use ml_template.Prelude.{
  ℕ, String, Bool, Option, none, some, busy, Error, if◌then◌else◌, ltb, leb, List, ok, not, ◌∷◌,
  false, ◌+◌, ◌&&◌, [], ◌||◌, ◌*◌,
}
use ml_template.Backend.{Backend, now}
use ml_template.Release.Types.{
  Time, preparing, ramp, finalizing, draining, rollback, blocked, Phase,
}
use ml_template.Release.Controller.{
  Lane, stable, canary, join_reasons, Verdict, abort, wait_for_traffic, healthy,
}
use ml_template.Release.Stages.{next_weight}
use ml_template.Samples.{Policy, Metrics, assess, is_finite, is_negative, equals, up_to, unit, less}
use ml_template.Legacy.Types.{State, Active, Release, Library}
use ml_template.Legacy.Effects.{Cluster, ready, ready_or_wait}
use ml_template.Legacy.Controller.{
  has_route, acquire, guard, change, once, twice, ensure, begin_rollback, claim, has_weight,
}
use ml_template.Legacy.Stages.{
  arm, update_active, advance_stage, start_finalizing, finalize, complete, restored,
  complete_rollback, route,
}

-- What the metrics call for before the dwell time is looked at.
unfoldable pub screen : ℕ → Metrics → Verdict
screen minimum m =
    if not (is_finite m.up && is_finite m.age && is_finite m.traffic) || is_negative m.traffic
    then abort "invalid_canary_metrics"
    else if not (equals m.up unit && up_to m.age (15 * unit))
    then abort "router_unavailable_or_stale"
    else if less m.traffic (minimum * unit)
    then wait_for_traffic
    else healthy

-- The parameters: the store and the library; the cluster; the policy; the owner of the lease; `str`
-- of a number, and the name of the class of an exception.
module _ (b : Backend State) (lib : Library) (cluster : Cluster b.World) (policy : Policy)
    (owner : String) (decimal_text : ℕ → String) (class_of : Error → String) where
  abbrev Step : Type 0
  Step = Action b.World (Unit {0})

  unfoldable pub fail : String → Step
  fail = begin_rollback b lib cluster owner policy.timeout

  commit : (State → Action b.World State) → Step
  commit = change b lib cluster owner policy.timeout

  -- `if self.clock()>deadline`, and with `>=`
  after : Time → Step → Step
  after deadline step = do t ← now b; when (ltb deadline t) step

  from : Time → Step → Step
  from deadline step = do t ← now b; when (leb deadline t) step

  deploy : Lane → String → ℕ → Step
  deploy = ensure b lib cluster owner policy.timeout

  is_up : Lane → Release → Action b.World Bool
  is_up = ready cluster decimal_text

  -- phase=='PREPARING'
  unfoldable pub advance_preparing : Active → Step
  unfolding fail after deploy is_up
  advance_preparing a = do
    deploy canary a.candidate.digest 1
    up ← is_up canary a.candidate
    (if up
        then once b lib cluster owner policy.timeout (arm policy.timeout)
        else after a.deadline (fail "candidate_readiness_timeout"))

  -- the end of a stage whose metrics are healthy
  promote : State → Active → Step
  unfolding commit
  promote s a =
      if ltb s.route.weight 100
      then (do
        new ← lift (next_weight s.route.weight)
        twice b lib cluster owner policy.timeout
            (advance_stage a.candidate.digest s.route.weight new policy.timeout))
      else once b lib cluster owner policy.timeout (start_finalizing policy.timeout)

  assess_stage : State → Active → List String → Step
  unfolding fail promote
  assess_stage s a (r ∷ rest) = fail (join_reasons (r ∷ rest))
  assess_stage s a [] = do
    t ← now b
    (if leb a.deadline t then fail "stage_deadline_exceeded" else promote s a)

  judge_stage : State → Active → Time → Metrics → Verdict → Step
  unfolding fail from assess_stage
  judge_stage s a since m (abort reason) = fail reason
  judge_stage s a since m wait_for_traffic = from a.deadline (fail "insufficient_canary_traffic")
  judge_stage s a since m healthy = do
    t ← now b
    (if ltb t (since + policy.dwell)
        then from a.deadline (fail "stage_deadline_exceeded")
        else assess_stage s a (assess m policy.error_limit policy.p95_limit))

  -- the RAMP branch, once the router has the route
  observe_stage : State → Active → Option Time → Step
  unfolding judge_stage
  observe_stage s a none =
      once b lib cluster owner policy.timeout
        (λ t. update_active (λ x. record x { stage_since = some t }))
  observe_stage s a (some since) = do
    m ← cluster.metrics
    judge_stage s a since m (screen policy.minimum m)

  -- phase=='RAMP'
  unfoldable pub advance_ramp : State → Active → Step
  unfolding fail after observe_stage is_up
  advance_ramp s a = do
    candidate_up ← is_up canary a.candidate
    stable_up ← (if candidate_up then is_up stable s.stable else return false)
    (if stable_up
        then (do
          seen ← cluster.router
          (if has_route seen s.route.weight s.route.revision
              then observe_stage s a a.stage_since
              else after a.deadline (fail "router_ack_timeout")))
        else fail "backend_unhealthy")

  -- the answer of the stable backend, none while it cannot be reached
  finish_release : Active → Option Bool → Step
  unfolding fail from
  finish_release a none = from a.deadline (fail "stable_backend_unavailable")
  finish_release a (some up) = do
    t ← now b
    (if leb a.deadline t
        then fail "stable_readiness_timeout"
        else when up
            (twice b lib cluster owner policy.timeout (finalize a.candidate policy.timeout)))

  -- phase=='FINALIZING'
  unfoldable pub advance_finalizing : Active → Step
  unfolding deploy finish_release
  advance_finalizing a = do
    deploy stable a.candidate.digest 1
    answer ← ready_or_wait cluster decimal_text stable a.candidate
    finish_release a answer

  -- phase=='DRAINING'
  unfoldable pub advance_draining : State → Active → Step
  unfolding deploy
  advance_draining s a = do
    seen ← cluster.router
    when (has_route seen 0 s.route.revision) (do
      deploy canary a.candidate.digest 0
      once b lib cluster owner policy.timeout (λ t s'. ok (complete a.candidate.digest t s')))

  -- phase=='ROLLBACK' with `restore_stable`
  unfoldable pub restore : Active → Step
  unfolding after commit deploy is_up
  restore a = do
    deploy stable a.previous_stable.digest 1
    up ← is_up stable a.previous_stable
    (if up
        then commit (λ s. lift (restored s))
        else after a.deadline
            (commit (λ s. lift (update_active (λ x. record x { phase = blocked }) s))))

  -- phase=='ROLLBACK' without
  unfoldable pub route_away : Active → Step
  unfolding commit deploy
  route_away a = do
    commit (λ s. return (route s 0))
    seen ← cluster.router
    current ← guard b lib cluster owner policy.timeout
    when (has_weight seen 0 current.route.revision) (do
      deploy canary a.candidate.digest 0
      twice b lib cluster owner policy.timeout (complete_rollback a))

  advance_phase : Phase → State → Active → Step
  unfolding advance_preparing advance_ramp advance_finalizing advance_draining restore route_away
  advance_phase preparing s a = advance_preparing a
  advance_phase ramp s a = advance_ramp s a
  advance_phase finalizing s a = advance_finalizing a
  advance_phase draining s a = advance_draining s a
  advance_phase rollback s a = if a.restore_stable then restore a else route_away a
  advance_phase blocked s a = return tt

  -- the body of the `try`; a release that is BLOCKED waits for an operator
  unfoldable pub advance : State → Active → Step
  unfolding advance_phase
  advance s a = advance_phase a.phase s a

  recover_phase : Phase → Error → Step
  unfolding fail
  recover_phase phase (busy message) = raise (busy message)
  recover_phase preparing e = fail (class_of e)
  recover_phase ramp e = fail (class_of e)
  recover_phase finalizing e = fail (class_of e)
  recover_phase _ e = return tt

  -- its handlers
  unfoldable pub recover : Active → Error → Step
  unfolding recover_phase
  recover a e = recover_phase a.phase e

  tick_active : State → Option Active → Step
  unfolding commit advance recover
  tick_active s none = commit (claim b lib cluster owner policy.timeout)
  tick_active s (some a) = catch (advance s a) (recover a)

  -- `tick`
  unfoldable pub tick : Step
  unfolding tick_active
  tick = do
    held ← acquire b lib cluster owner policy.timeout
    when held (do s ← guard b lib cluster owner policy.timeout; tick_active s s.active)
