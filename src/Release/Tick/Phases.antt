-- ===== src/Release/Tick/Phases.antt =====
-- The branches of a tick, one by one, and the whole tick.
use ml_template.Backend.Keeping.{
  Keeping, Keeping-return, Keeping-bind, Keeping-when, Keeping-lift, Keeping-if, Keeping-now,
}
use ml_template.Release.Types.{
  Time, State, Active, Phase, preparing, ramp, finalizing, draining, rollback, blocked,
}
use ml_template.Release.Moves.{
  Move, reroutes, completes, restores, blocks, arms, settles, promotes, commits, rolls_back,
}
use ml_template.Release.Tick.Keeping.{
  Quiet, read-Keeping, change-Keeping, once-Keeping, twice-Keeping, ensure-Keeping,
}
use ml_template.Backend.{Backend, IsCas}
use ml_template.Backend.Chains.{Peers}
use ml_template.Release.Host.{Host}
use ml_template.Release.Controller.{
  Effects, ack, block_if_expired, roll_back, stable, canary, Verdict, abort, judge,
  wait_for_traffic, healthy,
}
use ml_template.Samples.{Policy}
use ml_template.Prelude.{String, Bool, Option, leb, false, some, ◌+◌, none, or_raise, type_error}
use ml_template.Release.Tick.{
  fail, advance_preparing, judge_stage, advance_stage, stable_ready, advance_ramp,
  advance_finalizing, advance_draining, advance_recovery, twice, advance, commit_change,
}
use ml_template.Release.Stages.{request_rollback, commit_stable, route, arm, promote_stage}
use ml_template.Prelude.Actions.{lift}

module _ {b : Backend State} {c : IsCas b} {R : State → State → Type 0} (p : Peers c R) (h : Host)
    (effects : Effects b.World) (quiet : Quiet c R effects) (policy : Policy) (owner : String)
    (allowed : (s s' : State) → Move policy.timeout s s' → R s s') where
  pub fail-Keeping : (reason : String) → Keeping c R (fail b h effects policy owner reason)
  unfolding fail roll_back twice commit_change
  fail-Keeping reason =
      twice-Keeping p h effects quiet policy owner allowed (request_rollback reason policy.timeout)
        λ t u s next e. allowed s next (rolls_back reason t u e)

  preparing-Keeping :
      (expired : Bool) (a : Active)
      → Keeping c R (advance_preparing b h effects policy owner expired a)
  unfolding advance_preparing
  preparing-Keeping expired a =
      Keeping-bind _ _
        (ensure-Keeping p h effects quiet policy owner allowed canary a.pair a.fingerprint)
        λ done. Keeping-if expired _ _ (fail-Keeping "candidate_readiness_timeout") (
          Keeping-bind _ _ (quiet.readies canary a.pair a.fingerprint) λ up. Keeping-when up _ (
            once-Keeping p h effects quiet policy owner allowed (arm policy.timeout)
              λ t s next e. allowed s next (arms t e)))

  judge_stage-Keeping :
      (expired : Bool) (s : State) (since : Time) (v : Verdict)
      → Keeping c R (judge_stage b h effects policy owner expired s since v)
  unfolding judge_stage
  judge_stage-Keeping expired s since (abort reason) = fail-Keeping reason
  judge_stage-Keeping expired s since wait_for_traffic =
      Keeping-when expired _ (fail-Keeping "insufficient_canary_traffic")
  judge_stage-Keeping expired s since healthy =
      Keeping-if expired _ _ (fail-Keeping "stage_deadline_exceeded") (
        Keeping-bind _ _ (Keeping-now p) λ t. Keeping-when (leb (since + policy.dwell) t) _ (
          twice-Keeping p h effects quiet policy owner allowed
            (promote_stage s.route.weight policy.timeout)
            λ t1 t2 s' next e. allowed s' next (promotes s.route.weight t1 t2 e)))

  stage-Keeping :
      (expired : Bool) (s : State) (since : Option Time)
      → Keeping c R (advance_stage b h effects policy owner expired s since)
  unfolding advance_stage
  stage-Keeping expired s none = Keeping-if expired _ _ (fail-Keeping "stage_deadline_exceeded") (
      once-Keeping p h effects quiet policy owner allowed _
        λ t s' next e. allowed s' next (settles t e))
  stage-Keeping expired s (some since) =
      Keeping-bind _ _ quiet.measures
        λ values. judge_stage-Keeping expired s since (judge policy values)

  stable_ready-Keeping : (s : State) → Keeping c R (stable_ready b h effects policy owner s)
  unfolding stable_ready
  stable_ready-Keeping s =
      Keeping-bind (lift (or_raise s.stable type_error)) _ (Keeping-lift _) λ pair.
        Keeping-bind (lift (or_raise s.stable_fingerprint type_error)) _ (Keeping-lift _)
          λ fp. quiet.readies stable pair fp

  ack-Keeping : (s : State) → Keeping c R (ack b h effects policy owner s)
  unfolding ack
  ack-Keeping s = Keeping-bind _ _ quiet.routes λ seen. Keeping-return _

  ramp-Keeping :
      (expired : Bool) (s : State) (a : Active)
      → Keeping c R (advance_ramp b h effects policy owner expired s a)
  unfolding advance_ramp
  ramp-Keeping expired s a = Keeping-bind _ _ (quiet.readies canary a.pair a.fingerprint) λ up.
      Keeping-bind _ _ (Keeping-if up _ _ (stable_ready-Keeping s) (Keeping-return false))
        λ stable_up.
          Keeping-if stable_up _ _
            (Keeping-bind _ _ (ack-Keeping s) λ seen.
              Keeping-if seen _ _ (stage-Keeping expired s a.stage_since)
                (Keeping-when expired _ (fail-Keeping "router_ack_timeout")))
            (fail-Keeping "backend_unhealthy")

  finalizing-Keeping :
      (expired : Bool) (a : Active)
      → Keeping c R (advance_finalizing b h effects policy owner expired a)
  unfolding advance_finalizing
  finalizing-Keeping expired a =
      Keeping-bind _ _
        (ensure-Keeping p h effects quiet policy owner allowed stable a.pair a.fingerprint)
        λ done. Keeping-bind _ _ (quiet.readies stable a.pair a.fingerprint) λ up.
          Keeping-if expired _ _ (fail-Keeping "stable_readiness_timeout") (
            Keeping-when up _ (
              twice-Keeping p h effects quiet policy owner allowed
                (commit_stable a.pair a.fingerprint policy.timeout)
                λ t u s next e. allowed s next (commits a.pair a.fingerprint t u e)))

  draining-Keeping :
      (expired : Bool) (s : State) (a : Active)
      → Keeping c R (advance_draining b h effects policy owner expired s a)
  unfolding advance_draining
  draining-Keeping expired s a = Keeping-bind _ _ (quiet.readies stable a.pair a.fingerprint) λ up.
      Keeping-if up _ _
        (Keeping-bind _ _ (ack-Keeping s) λ seen.
          Keeping-if seen _ _
            (once-Keeping p h effects quiet policy owner allowed _
              λ t s' next e. allowed s' next (completes a.pair a.authorization t cc))
            (Keeping-when expired _ (fail-Keeping "drain_router_timeout")))
        (fail-Keeping "stable_unhealthy_during_drain")

  pub block-Keeping : (a : Active) → Keeping c R (block_if_expired b h effects policy owner a)
  unfolding block_if_expired
  block-Keeping a = Keeping-bind _ _ (Keeping-now p) λ t. Keeping-when (leb a.deadline t) _ (
      change-Keeping p h effects quiet policy owner allowed _ (λ s. Keeping-lift _)
        λ s w next e. allowed s next (blocks e))

  recovery-Keeping : (a : Active) → Keeping c R (advance_recovery b h effects policy owner a)
  unfolding advance_recovery
  recovery-Keeping a =
      Keeping-bind _ _
        (change-Keeping p h effects quiet policy owner allowed _ (λ s. Keeping-return (route s 0))
          λ s w next e. allowed s next (reroutes cc))
        λ done.
          Keeping-bind _ _
            (ensure-Keeping p h effects quiet policy owner allowed stable a.previous_stable
              a.previous_fingerprint)
            λ made.
              Keeping-bind _ _ (quiet.readies stable a.previous_stable a.previous_fingerprint) λ up.
                Keeping-bind _ _
                  (Keeping-if up _ _
                    (Keeping-bind _ _ (read-Keeping p h effects quiet policy owner allowed)
                      λ s. ack-Keeping s)
                    (Keeping-return false))
                  λ seen.
                    Keeping-if seen _ _
                      (once-Keeping p h effects quiet policy owner allowed _
                        λ t s' next e. allowed s' next (restores a t cc))
                      (block-Keeping a)

  pub advance-Keeping :
      (s : State) (a : Active) → Keeping c R (advance b h effects policy owner s a)
  unfolding advance
  advance-Keeping s a = Keeping-bind _ _ (Keeping-now p) λ t. branch (leb a.deadline t) a.phase
    where
      branch :
          (expired : Bool) (phase : Phase)
          → Keeping c R (elim phase [
            | preparing ↦ advance_preparing b h effects policy owner expired a
            | ramp ↦ advance_ramp b h effects policy owner expired s a
            | finalizing ↦ advance_finalizing b h effects policy owner expired a
            | draining ↦ advance_draining b h effects policy owner expired s a
            | _ ↦ advance_recovery b h effects policy owner a
          ])
      branch expired preparing = preparing-Keeping expired a
      branch expired ramp = ramp-Keeping expired s a
      branch expired finalizing = finalizing-Keeping expired a
      branch expired draining = draining-Keeping expired s a
      branch expired rollback = recovery-Keeping a
      branch expired blocked = recovery-Keeping a
