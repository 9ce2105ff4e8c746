-- ===== src/Release/Tick/Writes.antt =====
-- What a whole tick writes.
use ml_template.Prelude.Actions.{Action, return, lift, when, ◌>>=◌, bind-result}
use ml_template.Backend.Keeping.{
  Keeping, Keeping-return, Keeping-raise, Keeping-bind, Keeping-when, Keeping-lift, Keeping-if,
  Keeping-now, Keeping-catch,
}
use ml_template.Release.Types.{
  State, Active, ServingPair, Phase, PendingItem, finalizing, rollback, blocked, preparing, ramp,
  draining,
}
use ml_template.Release.Moves.{Move, stays, claims}
use ml_template.Release.Tick.Keeping.{
  Quiet, read-Keeping, change-Keeping, guard-Keeping, acquire-Keeping,
}
use ml_template.Release.Tick.Phases.{fail-Keeping, block-Keeping, advance-Keeping}
use ml_template.Backend.{Backend, IsCas, now}
use ml_template.Backend.Chains.{Peers}
use ml_template.Release.Host.{Host}
use ml_template.Release.Controller.{
  Effects, eligible, claim_newest, claim, clocked_twice, block_if_expired,
}
use ml_template.Samples.{Policy}
use ml_template.Prelude.{
  String, Bool, ℕ, Option, ◌≡◌, if◌then◌else◌, transport, Error, List, ok, some, none, busy, ◌∷◌,
  value_error, leb, result_map, http, [], ltb, false,
}
use ml_template.Release.Tick.{recover, run_release, tick_active, tick, advance, fail}
use ml_template.Release.Stages.{is_recovery, newest, claim_candidate, pair_version}
use ml_template.Release.Authorization.{to_int, claimable}

module _ {b : Backend State} {c : IsCas b} {R : State → State → Type 0} (p : Peers c R) (h : Host)
    (effects : Effects b.World) (quiet : Quiet c R effects) (policy : Policy) (owner : String)
    (allowed : (s s' : State) → Move policy.timeout s s' → R s s') where
  -- A handler that blocks a recovery and rolls any other phase back.
  handler-Keeping :
      (recovery : Bool) (a : Active) (reason : String)
      → Keeping c R (
          if recovery
          then block_if_expired b h effects policy owner a
          else fail b h effects policy owner reason)
  handler-Keeping recovery a reason =
      Keeping-if recovery _ _ (block-Keeping p h effects quiet policy owner allowed a)
        (fail-Keeping p h effects quiet policy owner allowed reason)

  recover_transport-Keeping :
      (a : Active) → Keeping c R (recover b h effects policy owner a transport)
  unfolding recover
  recover_transport-Keeping a = branch a.phase
    where
      branch :
          (phase : Phase)
          → Keeping c R (elim phase [
            | finalizing ↦ (do
              t ← now b
              when (leb a.deadline t) (fail b h effects policy owner "stable_backend_unavailable"))
            | rollback ↦ block_if_expired b h effects policy owner a
            | blocked ↦ block_if_expired b h effects policy owner a
            | _ ↦ fail b h effects policy owner "backend_unavailable"
          ])
      branch finalizing =
          Keeping-bind _ _ (Keeping-now p)
            λ t. Keeping-when _ _ (fail-Keeping p h effects quiet policy owner allowed _)
      branch rollback = block-Keeping p h effects quiet policy owner allowed a
      branch blocked = block-Keeping p h effects quiet policy owner allowed a
      branch preparing = fail-Keeping p h effects quiet policy owner allowed _
      branch ramp = fail-Keeping p h effects quiet policy owner allowed _
      branch draining = fail-Keeping p h effects quiet policy owner allowed _

  recover-Keeping : (a : Active) (e : Error) → Keeping c R (recover b h effects policy owner a e)
  unfolding recover
  recover-Keeping a (busy message) = Keeping-raise _
  recover-Keeping a transport = recover_transport-Keeping a
  recover-Keeping a http = handler-Keeping (is_recovery a.phase) a _
  recover-Keeping a (value_error message) = handler-Keeping (is_recovery a.phase) a _
  recover-Keeping a e = handler-Keeping (is_recovery a.phase) a _

  run_release-Keeping :
      (s : State) (a : Active) → Keeping c R (run_release b h effects policy owner s a)
  unfolding run_release
  run_release-Keeping s a =
      Keeping-if _ _ _
        (Keeping-catch (advance b h effects policy owner s a) _
          (advance-Keeping p h effects quiet policy owner allowed s a) (recover-Keeping a))
        (fail-Keeping p h effects quiet policy owner allowed _)

  eligible-Keeping :
      (s : State) (floor : ℕ) (items : List PendingItem)
      → Keeping c R (eligible b h effects policy owner s floor items)
  unfolding eligible
  eligible-Keeping s floor [] = Keeping-return []
  eligible-Keeping s floor (item ∷ rest) = Keeping-bind _ _ (Keeping-now p) λ t.
      Keeping-bind _ _
        (Keeping-if (claimable h s item t) _ _
          (Keeping-lift (result_map (λ v. ltb floor v) (pair_version item))) (Keeping-return false))
        λ fits. Keeping-bind _ _ (eligible-Keeping s floor rest) λ others. Keeping-return _

  claim_newest-Keeping :
      (q : ServingPair) (s : State) (items : List PendingItem)
      → Keeping c R (claim_newest b h effects policy owner q s items)
  unfolding claim_newest clocked_twice
  claim_newest-Keeping q s [] = Keeping-return s
  claim_newest-Keeping q s (item ∷ rest) =
      Keeping-bind (lift (newest item rest)) _ (Keeping-lift _) λ candidate.
        Keeping-bind _ _ (Keeping-now p) λ t.
          Keeping-bind _ _ (Keeping-now p)
            λ u. Keeping-lift (claim_candidate q candidate policy.timeout t u s)

  claim-Keeping : (s : State) → Keeping c R (claim b h effects policy owner s)
  unfolding claim
  claim-Keeping s = branch s.stable
    where
      branch :
          (stable : Option ServingPair)
          → Keeping c R (elim stable [
            | none ↦ return s
            | some q ↦ do
              floor ← lift (to_int q.model_version)
              items ← eligible b h effects policy owner s floor s.pending
              claim_newest b h effects policy owner q s items
          ])
      branch none = Keeping-return s
      branch (some q) = Keeping-bind (lift (to_int q.model_version)) _ (Keeping-lift _) λ floor.
          Keeping-bind _ _ (eligible-Keeping s floor s.pending)
            λ items. claim_newest-Keeping q s items

  claim_newest-moves :
      (q : ServingPair) (s : State) (items : List PendingItem) (w : b.World) (next : State)
      → (claim_newest b h effects policy owner q s items w).0 ≡ ok next
      → R s next
  unfolding claim_newest clocked_twice
  claim_newest-moves q s [] w next e = allowed s next (stays cc)
  claim_newest-moves q s (item ∷ rest) w next e =
      let (candidate, v, chosen, e1) = bind-result (lift (newest item rest)) _ w next e in
      allowed s next (claims q candidate (b.clock v).0 (b.clock (b.clock v).1).0 (unfold now in e1))

  claim-moves :
      (s : State) (w : b.World) (next : State)
      → (claim b h effects policy owner s w).0 ≡ ok next
      → R s next
  unfolding claim
  claim-moves s w next = branch s.stable
    where
      branch :
          (stable : Option ServingPair)
          → ((elim stable as (λ _. Action b.World State) [
            | none ↦ return s
            | some q ↦ do
              floor ← lift (to_int q.model_version)
              items ← eligible b h effects policy owner s floor s.pending
              claim_newest b h effects policy owner q s items
          ])
              w).0
            ≡ ok next
          → R s next
      branch none e = allowed s next (stays cc)
      branch (some q) e =
          let (floor, v, parsed, e1) = bind-result (lift (to_int q.model_version)) _ w next e in
          let (items, v1, chosen, e2) =
            bind-result (eligible b h effects policy owner s floor s.pending) _ v next e1 in
          claim_newest-moves q s items v1 next e2

  tick_active-Keeping :
      (s : State) (active : Option Active)
      → Keeping c R (tick_active b h effects policy owner s active)
  unfolding tick_active
  tick_active-Keeping s none =
      change-Keeping p h effects quiet policy owner allowed _ claim-Keeping claim-moves
  tick_active-Keeping s (some a) = run_release-Keeping s a

  -- A tick keeps to every relation that allows the moves of the controller.
  pub tick-Keeping : Keeping c R (tick b h effects policy owner)
  unfolding tick
  tick-Keeping = Keeping-bind _ _ (acquire-Keeping p h effects quiet policy owner allowed) λ held.
      Keeping-when held _ (
        Keeping-bind _ _ (read-Keeping p h effects quiet policy owner allowed) λ s.
          Keeping-bind _ _ (guard-Keeping p h effects quiet policy owner allowed s)
            λ u. tick_active-Keeping s s.active)
