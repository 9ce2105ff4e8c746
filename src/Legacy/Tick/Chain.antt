-- ===== src/Legacy/Tick/Chain.antt =====
-- A tick as a whole.
use ml_template.Backend.Keeping.{
  Keeping, Keeping-return, Keeping-raise, Keeping-bind, Keeping-when, Keeping-catch, Keeping-if,
}
use ml_template.Backend.{Backend, IsCas}
use ml_template.Backend.Chains.{Peers, Chain}
use ml_template.Backend.History.{Later}
use ml_template.Release.Types.{Phase, preparing, ramp, finalizing, draining, rollback, blocked}
use ml_template.Samples.{Policy}
use ml_template.Legacy.Types.{State, Library, Active}
use ml_template.Legacy.Steps.{Step}
use ml_template.Legacy.Effects.{Cluster}
use ml_template.Legacy.Effects.Keeping.{Quiet}
use ml_template.Legacy.Tick.Keeping.{guard-Keeping, acquire-Keeping, claim-Keeping}
use ml_template.Legacy.Tick.Writes.{
  fail-Keeping, preparing-Keeping, ramp-Keeping, finalizing-Keeping, draining-Keeping,
  restore-Keeping, route_away-Keeping,
}
use ml_template.Legacy.Tick.{tick, tick_active, advance, recover, advance_phase, recover_phase}
use ml_template.Prelude.{String, Option, some, none, ℕ, Error, busy}

module _ {b : Backend State} {c : IsCas b} (p : Peers c Step) (lib : Library)
    (cluster : Cluster b.World) (quiet : Quiet c cluster) (policy : Policy) (owner : String)
    (decimal_text : ℕ → String) (class_of : Error → String) where
  advance_phase-Keeping :
      (phase : Phase) (s : State) (a : Active)
      → Keeping c Step (advance_phase b lib cluster policy owner decimal_text class_of phase s a)
  unfolding advance_phase
  advance_phase-Keeping preparing s a =
      preparing-Keeping p lib cluster quiet policy owner decimal_text class_of a
  advance_phase-Keeping ramp s a =
      ramp-Keeping p lib cluster quiet policy owner decimal_text class_of s a
  advance_phase-Keeping finalizing s a =
      finalizing-Keeping p lib cluster quiet policy owner decimal_text class_of a
  advance_phase-Keeping draining s a =
      draining-Keeping p lib cluster quiet policy owner decimal_text class_of s a
  advance_phase-Keeping rollback s a =
      Keeping-if a.restore_stable _ _
        (restore-Keeping p lib cluster quiet policy owner decimal_text class_of a)
        (route_away-Keeping p lib cluster quiet policy owner decimal_text class_of a)
  advance_phase-Keeping blocked s a = Keeping-return tt

  recover_phase-Keeping :
      (phase : Phase) (e : Error)
      → Keeping c Step (recover_phase b lib cluster policy owner decimal_text class_of phase e)
  unfolding recover_phase
  recover_phase-Keeping phase (busy message) = Keeping-raise (busy message)
  recover_phase-Keeping preparing e =
      fail-Keeping p lib cluster quiet policy owner decimal_text class_of (class_of e)
  recover_phase-Keeping ramp e =
      fail-Keeping p lib cluster quiet policy owner decimal_text class_of (class_of e)
  recover_phase-Keeping finalizing e =
      fail-Keeping p lib cluster quiet policy owner decimal_text class_of (class_of e)
  recover_phase-Keeping draining e = Keeping-return tt
  recover_phase-Keeping rollback e = Keeping-return tt
  recover_phase-Keeping blocked e = Keeping-return tt

  tick_active-Keeping :
      (s : State) (active : Option Active)
      → Keeping c Step (tick_active b lib cluster policy owner decimal_text class_of s active)
  unfolding tick_active advance recover
  tick_active-Keeping s none = claim-Keeping p lib cluster quiet owner policy.timeout
  tick_active-Keeping s (some a) =
      Keeping-catch _ _ (advance_phase-Keeping a.phase s a) λ e. recover_phase-Keeping a.phase e

  tick-Keeping : Keeping c Step (tick b lib cluster policy owner decimal_text class_of)
  unfolding tick
  tick-Keeping = Keeping-bind _ _ (acquire-Keeping p lib cluster quiet owner policy.timeout) λ held.
      Keeping-when held _ (
        Keeping-bind _ _ (guard-Keeping p lib cluster quiet owner policy.timeout)
          λ s. tick_active-Keeping s s.active)

  -- If the other writers of the state make steps, and the calls of the cluster do not write it, then
  -- a tick, with whatever outcome, loses no version and leaves a history of steps.
  pub tick-Chain :
      (w : b.World)
      → Chain Step (c.versions w)
      → Later
          (c.versions w)
          (c.versions (tick b lib cluster policy owner decimal_text class_of w).1)
        × Chain Step (c.versions (tick b lib cluster policy owner decimal_text class_of w).1)
  tick-Chain w chain = (tick-Keeping.later w, tick-Keeping.chained w chain)
