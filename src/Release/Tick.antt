-- ===== src/Release/Tick.antt =====
-- `Controller.advance` and `Controller.tick` of control_plane/controller_v2.py.
pub mod Keeping
pub mod Phases
pub mod Writes
pub mod Discipline
use ml_template.Prelude.Actions.{Action, return, raise, lift, catch, when, ◌>>=◌, ◌>>◌}
use ml_template.Prelude.{
  String_eq, ℕ_eq, String, Result, Bool, Error, if◌then◌else◌, Option, or_raise, leb, busy, some,
  type_error, false, true, ok, ◌+◌, value_error, none, transport, err, http,
}
use ml_template.Release.Types.{
  Time, preparing, ramp, finalizing, draining, rollback, blocked, Active, State,
}
use ml_template.Backend.{Backend, now}
use ml_template.Release.Host.{Host}
use ml_template.Release.Controller.{
  Effects, roll_back, change, acquire, ensure, Verdict, canary, stable, claim, ack,
  block_if_expired, guard, abort, judge, release_identity, wait_for_traffic, healthy, clocked,
  clocked_twice,
}
use ml_template.Samples.{Policy}
use ml_template.Release.Stages.{
  route, update_active, is_recovery, arm, commit_stable, promote_stage, complete, restored,
}
use ml_template.Release.Store.{read}
use ml_template.Release.Authorization.{validate_authorization}

module _ (b : Backend State) (h : Host) (effects : Effects b.World) (policy : Policy)
    (owner : String) where
  abbrev Step : Type 0
  Step = Action b.World (Unit {0})

  unfoldable pub fail : String → Step
  fail = roll_back b h effects policy owner

  unfoldable pub commit_change : (State → Action b.World State) → Step
  commit_change = change b h effects policy owner

  unfoldable pub once : (Time → State → Result State) → Step
  once f = commit_change (clocked b h effects policy owner f)

  unfoldable pub twice : (Time → Time → State → Result State) → Step
  twice f = commit_change (clocked_twice b h effects policy owner f)

  -- phase == "PREPARING"
  unfoldable pub advance_preparing : Bool → Active → Step
  unfolding fail once commit_change
  advance_preparing expired a = do
    ensure b h effects policy owner canary a.pair a.fingerprint
    (if expired then fail "candidate_readiness_timeout" else (do
      up ← effects.is_ready canary a.pair a.fingerprint
      when up (once (arm policy.timeout))))

  -- the end of the RAMP branch: the metrics have been read
  unfoldable pub judge_stage : Bool → State → Time → Verdict → Step
  unfolding fail twice commit_change
  judge_stage expired s since (abort reason) = fail reason
  judge_stage expired s since wait_for_traffic = when expired (fail "insufficient_canary_traffic")
  judge_stage expired s since healthy = if expired then fail "stage_deadline_exceeded" else (do
    t ← now b
    when (leb (since + policy.dwell) t) (twice (promote_stage s.route.weight policy.timeout)))

  -- the RAMP branch, once the router has acknowledged the route
  unfoldable pub advance_stage : Bool → State → Option Time → Step
  unfolding judge_stage fail once commit_change
  advance_stage expired s none =
      if expired
      then fail "stage_deadline_exceeded"
      else once (λ t. update_active (λ a. record a { stage_since = some t }))
  advance_stage expired s (some since) = do
    values ← effects.metrics
    judge_stage expired s since (judge policy values)

  -- is_ready("stable", s["stable"], s["stable_fingerprint"])
  unfoldable pub stable_ready : State → Action b.World Bool
  stable_ready s = do
    pair ← lift (or_raise s.stable type_error)
    fingerprint ← lift (or_raise s.stable_fingerprint type_error)
    effects.is_ready stable pair fingerprint

  -- phase == "RAMP"
  unfoldable pub advance_ramp : Bool → State → Active → Step
  unfolding advance_stage stable_ready fail
  advance_ramp expired s a = do
    candidate_up ← effects.is_ready canary a.pair a.fingerprint
    stable_up ← (if candidate_up then stable_ready s else return false)
    (if stable_up
        then (do
          seen ← ack b h effects policy owner s
          (if seen
              then advance_stage expired s a.stage_since
              else when expired (fail "router_ack_timeout")))
        else fail "backend_unhealthy")

  -- phase == "FINALIZING"
  unfoldable pub advance_finalizing : Bool → Active → Step
  unfolding fail twice commit_change
  advance_finalizing expired a = do
    ensure b h effects policy owner stable a.pair a.fingerprint
    up ← effects.is_ready stable a.pair a.fingerprint
    (if expired
        then fail "stable_readiness_timeout"
        else when up (twice (commit_stable a.pair a.fingerprint policy.timeout)))

  -- phase == "DRAINING"
  unfoldable pub advance_draining : Bool → State → Active → Step
  unfolding fail once commit_change
  advance_draining expired s a = do
    up ← effects.is_ready stable a.pair a.fingerprint
    (if up
        then (do
          seen ← ack b h effects policy owner s
          (if seen
              then once (λ t s'. ok (complete a.pair a.authorization t s'))
              else when expired (fail "drain_router_timeout")))
        else fail "stable_unhealthy_during_drain")

  -- phase in ("ROLLBACK", "BLOCKED")
  unfoldable pub advance_recovery : Active → Step
  unfolding once commit_change
  advance_recovery a = do
    commit_change (λ s. return (route s 0))
    ensure b h effects policy owner stable a.previous_stable a.previous_fingerprint
    up ← effects.is_ready stable a.previous_stable a.previous_fingerprint
    seen ← (if up then (do s ← read b h; ack b h effects policy owner s) else return false)
    (if seen
        then once (λ t s'. ok (restored a t s'))
        else block_if_expired b h effects policy owner a)

  -- `Controller.advance`
  unfoldable pub advance : State → Active → Step
  unfolding advance_preparing advance_ramp advance_finalizing advance_draining advance_recovery
  advance s a = do
    t ← now b
    let expired = leb a.deadline t
    elim a.phase [
      | preparing ↦ advance_preparing expired a
      | ramp ↦ advance_ramp expired s a
      | finalizing ↦ advance_finalizing expired a
      | draining ↦ advance_draining expired s a
      | _ ↦ advance_recovery a
    ]

  -- The exceptions of `advance`. HTTPError is a URLError, so `http` is met by the second handler.
  unfoldable pub recover : Active → Error → Step
  unfolding fail
  recover a (busy message) = raise (busy message)
  recover a transport = elim a.phase [
    | finalizing ↦ (do t ← now b; when (leb a.deadline t) (fail "stable_backend_unavailable"))
    | rollback ↦ block_if_expired b h effects policy owner a
    | blocked ↦ block_if_expired b h effects policy owner a
    | _ ↦ fail "backend_unavailable"
  ]
  recover a http =
      if is_recovery a.phase
      then block_if_expired b h effects policy owner a
      else fail "backend_unavailable"
  recover a (value_error message) =
      if is_recovery a.phase
      then block_if_expired b h effects policy owner a
      else fail "invalid_backend_contract"
  recover a e =
      if is_recovery a.phase
      then block_if_expired b h effects policy owner a
      else fail "effect_failure"

  -- the check of the release's authorization, which a recovery does not need
  unfoldable pub is_authorized : Active → Bool
  is_authorized a =
      if is_recovery a.phase
      then true
      else elim (validate_authorization h a.authorization (release_identity a)) [
        | ok _ ↦ true
        | err _ ↦ false
      ]

  unfoldable pub run_release : State → Active → Step
  unfolding recover is_authorized fail
  run_release s a =
      if is_authorized a
      then catch (advance s a) (recover a)
      else fail "missing_release_authorization"

  unfoldable pub tick_active : State → Option Active → Step
  unfolding run_release commit_change fail
  tick_active s none = commit_change (claim b h effects policy owner)
  tick_active s (some a) = run_release s a

  -- `Controller.tick`
  unfoldable pub tick : Step
  unfolding tick_active
  tick = do
    held ← acquire b h effects policy owner
    when held (do s ← read b h; guard b h effects policy owner s; tick_active s s.active)
