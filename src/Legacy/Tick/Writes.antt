-- ===== src/Legacy/Tick/Writes.antt =====
-- The writes of the phases of a tick, as steps.
use ml_template.Prelude.Actions.{Action, lift}
use ml_template.Backend.Keeping.{
  Keeping, Keeping-return, Keeping-bind, Keeping-now, Keeping-if, Keeping-lift, Keeping-when,
  Keeping-lift-bind,
}
use ml_template.Backend.{Backend, IsCas}
use ml_template.Backend.Chains.{Peers}
use ml_template.Release.Types.{Time}
use ml_template.Release.Controller.{Lane, stable, canary, Verdict, abort, wait_for_traffic, healthy}
use ml_template.Release.Stages.{next_weight}
use ml_template.Samples.{Policy, Metrics}
use ml_template.Legacy.Types.{State, Library, Release, Active}
use ml_template.Legacy.Steps.{
  Step, updated, armed, advanced, finalized, completed, routed_away, restored_stable, rolled_back,
}
use ml_template.Legacy.Stages.{start_finalizing}
use ml_template.Legacy.Effects.{Cluster}
use ml_template.Legacy.Tick.Keeping.{
  stepped, guard-Keeping, ensure-Keeping, change-Keeping, once-Keeping, twice-Keeping,
  begin_rollback-Keeping,
}
use ml_template.Legacy.Effects.Keeping.{Quiet, ready-Keeping, ready_or_wait-Keeping}
use ml_template.Legacy.Tick.{
  fail, commit, after, from, deploy, is_up, advance_preparing, promote, assess_stage, judge_stage,
  observe_stage, advance_ramp, advance_finalizing, advance_draining, restore, route_away,
  finish_release,
}
use ml_template.Prelude.{
  String, ◌≡◌, ok, Option, some, none, List, ℕ, Error, Result, ◌∷◌, ok-injective, [], Bool,
}

module _ {b : Backend State} {c : IsCas b} (p : Peers c Step) (lib : Library)
    (cluster : Cluster b.World) (quiet : Quiet c cluster) (policy : Policy) (owner : String)
    (decimal_text : ℕ → String) (class_of : Error → String) where
  pub fail-Keeping :
      (reason : String)
      → Keeping c Step (fail b lib cluster policy owner decimal_text class_of reason)
  unfolding fail
  fail-Keeping reason = begin_rollback-Keeping p lib cluster quiet owner policy.timeout reason

  after-Keeping :
      (deadline : Time) (step : Action b.World (Unit {0}))
      → Keeping c Step step
      → Keeping c Step (after b lib cluster policy owner decimal_text class_of deadline step)
  unfolding after
  after-Keeping deadline step k = Keeping-bind _ _ (Keeping-now p) λ t. Keeping-when _ _ k

  from-Keeping :
      (deadline : Time) (step : Action b.World (Unit {0}))
      → Keeping c Step step
      → Keeping c Step (from b lib cluster policy owner decimal_text class_of deadline step)
  unfolding from
  from-Keeping deadline step k = Keeping-bind _ _ (Keeping-now p) λ t. Keeping-when _ _ k

  deploy-Keeping :
      (lane : Lane) (d : String) (n : ℕ)
      → Keeping c Step (deploy b lib cluster policy owner decimal_text class_of lane d n)
  unfolding deploy
  deploy-Keeping lane d n = ensure-Keeping p lib cluster quiet owner policy.timeout lane d n

  is_up-Keeping :
      (lane : Lane) (r : Release)
      → Keeping c Step (is_up b lib cluster policy owner decimal_text class_of lane r)
  unfolding is_up
  is_up-Keeping lane r = ready-Keeping cluster quiet decimal_text lane r

  -- a change whose mutation does not look at the clock
  plain-Keeping :
      (f : State → Result State)
      → ((s next : State) → f s ≡ ok next → Step s next)
      → Keeping c Step (commit b lib cluster policy owner decimal_text class_of (λ s. lift (f s)))
  unfolding commit
  plain-Keeping f moves =
      change-Keeping p lib cluster quiet owner policy.timeout _ (λ s. Keeping-lift (f s))
        (λ s w next e. moves s next e)

  pub preparing-Keeping :
      (a : Active)
      → Keeping c Step (advance_preparing b lib cluster policy owner decimal_text class_of a)
  unfolding advance_preparing
  preparing-Keeping a = Keeping-bind _ _ (deploy-Keeping canary a.candidate.digest 1) λ done.
      Keeping-bind _ _ (is_up-Keeping canary a.candidate) λ up.
        Keeping-if up _ _
          (once-Keeping p lib cluster quiet owner policy.timeout _
            λ t s next e. armed policy.timeout t e)
          (after-Keeping a.deadline _ (fail-Keeping "candidate_readiness_timeout"))

  promote-Keeping :
      (s : State) (a : Active)
      → Keeping c Step (promote b lib cluster policy owner decimal_text class_of s a)
  unfolding promote start_finalizing
  promote-Keeping s a =
      Keeping-if _ _ _
        (Keeping-lift-bind (next_weight s.route.weight) _ λ new known.
          twice-Keeping p lib cluster quiet owner policy.timeout _ λ t u x next e.
            advanced a.candidate.digest s.route.weight new policy.timeout t u known e)
        (once-Keeping p lib cluster quiet owner policy.timeout _ λ t x next e. updated _ e)

  assess_stage-Keeping :
      (s : State) (a : Active) (reasons : List String)
      → Keeping c Step (assess_stage b lib cluster policy owner decimal_text class_of s a reasons)
  unfolding assess_stage
  assess_stage-Keeping s a (r ∷ rest) = fail-Keeping _
  assess_stage-Keeping s a [] =
      Keeping-bind _ _ (Keeping-now p)
        λ t. Keeping-if _ _ _ (fail-Keeping "stage_deadline_exceeded") (promote-Keeping s a)

  judge_stage-Keeping :
      (s : State) (a : Active) (since : Time) (m : Metrics) (v : Verdict)
      → Keeping c Step (judge_stage b lib cluster policy owner decimal_text class_of s a since m v)
  unfolding judge_stage
  judge_stage-Keeping s a since m (abort reason) = fail-Keeping reason
  judge_stage-Keeping s a since m wait_for_traffic =
      from-Keeping a.deadline _ (fail-Keeping "insufficient_canary_traffic")
  judge_stage-Keeping s a since m healthy = Keeping-bind _ _ (Keeping-now p) λ t.
      Keeping-if _ _ _ (from-Keeping a.deadline _ (fail-Keeping "stage_deadline_exceeded"))
        (assess_stage-Keeping s a _)

  observe_stage-Keeping :
      (s : State) (a : Active) (since : Option Time)
      → Keeping c Step (observe_stage b lib cluster policy owner decimal_text class_of s a since)
  unfolding observe_stage
  observe_stage-Keeping s a none =
      once-Keeping p lib cluster quiet owner policy.timeout _ λ t x next e. updated _ e
  observe_stage-Keeping s a (some since) =
      Keeping-bind _ _ quiet.measures λ m. judge_stage-Keeping s a since m _

  pub ramp-Keeping :
      (s : State) (a : Active)
      → Keeping c Step (advance_ramp b lib cluster policy owner decimal_text class_of s a)
  unfolding advance_ramp
  ramp-Keeping s a = Keeping-bind _ _ (is_up-Keeping canary a.candidate) λ candidate_up.
      Keeping-bind _ _
        (Keeping-if candidate_up _ _ (is_up-Keeping stable s.stable) (Keeping-return _))
        λ stable_up.
          Keeping-if stable_up _ _
            (Keeping-bind _ _ quiet.routes λ seen.
              Keeping-if _ _ _ (observe_stage-Keeping s a a.stage_since)
                (after-Keeping a.deadline _ (fail-Keeping "router_ack_timeout")))
            (fail-Keeping "backend_unhealthy")

  finish_release-Keeping :
      (a : Active) (answer : Option Bool)
      → Keeping c Step (finish_release b lib cluster policy owner decimal_text class_of a answer)
  unfolding finish_release
  finish_release-Keeping a none =
      from-Keeping a.deadline _ (fail-Keeping "stable_backend_unavailable")
  finish_release-Keeping a (some up) = Keeping-bind _ _ (Keeping-now p) λ t.
      Keeping-if _ _ _ (fail-Keeping "stable_readiness_timeout") (
        Keeping-when up _ (
          twice-Keeping p lib cluster quiet owner policy.timeout _
            λ t u x next e. finalized a.candidate policy.timeout t u e))

  pub finalizing-Keeping :
      (a : Active)
      → Keeping c Step (advance_finalizing b lib cluster policy owner decimal_text class_of a)
  unfolding advance_finalizing
  finalizing-Keeping a = Keeping-bind _ _ (deploy-Keeping stable a.candidate.digest 1) λ done.
      Keeping-bind _ _ (ready_or_wait-Keeping cluster quiet decimal_text stable a.candidate)
        λ answer. finish_release-Keeping a answer

  pub draining-Keeping :
      (s : State) (a : Active)
      → Keeping c Step (advance_draining b lib cluster policy owner decimal_text class_of s a)
  unfolding advance_draining
  draining-Keeping s a = Keeping-bind _ _ quiet.routes λ seen. Keeping-when _ _ (
      Keeping-bind _ _ (deploy-Keeping canary a.candidate.digest 0) λ done.
        once-Keeping p lib cluster quiet owner policy.timeout _
          λ t x next e. stepped (completed a.candidate.digest t) (ok-injective e))

  pub restore-Keeping :
      (a : Active) → Keeping c Step (restore b lib cluster policy owner decimal_text class_of a)
  unfolding restore
  restore-Keeping a = Keeping-bind _ _ (deploy-Keeping stable a.previous_stable.digest 1) λ done.
      Keeping-bind _ _ (is_up-Keeping stable a.previous_stable) λ up.
        Keeping-if up _ _ (plain-Keeping _ λ s next e. restored_stable e)
          (after-Keeping a.deadline _ (plain-Keeping _ λ s next e. updated _ e))

  pub route_away-Keeping :
      (a : Active) → Keeping c Step (route_away b lib cluster policy owner decimal_text class_of a)
  unfolding route_away commit
  route_away-Keeping a =
      Keeping-bind _ _
        (change-Keeping p lib cluster quiet owner policy.timeout _ (λ s. Keeping-return _)
          (λ s w next e. stepped routed_away (ok-injective e)))
        λ done. Keeping-bind _ _ quiet.routes λ seen.
          Keeping-bind _ _ (guard-Keeping p lib cluster quiet owner policy.timeout) λ current.
            Keeping-when _ _ (
              Keeping-bind _ _ (deploy-Keeping canary a.candidate.digest 0) λ gone.
                twice-Keeping p lib cluster quiet owner policy.timeout _
                  λ t u x next e. rolled_back a t u e)
