-- ===== src/Release/Tick/Discipline.antt =====
-- What the router may rely on while a controller runs.
use ml_template.Prelude.{◌≡◌, String, ℕ, inl, inr, sym}
use ml_template.Backend.{Backend, IsCas}
use ml_template.Release.Types.{State}
use ml_template.Backend.Chains.{Peers, Chain, At, Chain-related}
use ml_template.Release.Discipline.{
  Disciplined, Move-Disciplined, Disciplined-refl, Disciplined-trans,
}
use ml_template.Release.Host.{Host}
use ml_template.Release.Controller.{Effects}
use ml_template.Release.Tick.Keeping.{Quiet}
use ml_template.Samples.{Policy}
use ml_template.Backend.History.{Later}
use ml_template.Release.Tick.{tick}
use ml_template.Release.Tick.Writes.{tick-Keeping}

module _ {b : Backend State} (c : IsCas b) where
  revision-weight :
      (w : b.World) (r q : ℕ) (x y : State)
      → Chain Disciplined (c.versions w)
      → At r x (c.versions w)
      → At q y (c.versions w)
      → x.route.revision ≡ y.route.revision
      → x.route.weight ≡ y.route.weight
  revision-weight w r q x y chain there here same =
      elim (Chain-related Disciplined-refl Disciplined-trans r q x y (c.versions w) chain there
        here) [ inl k ↦ k.tells same | inr k ↦ sym (k.tells (sym same)) ]

module _ {b : Backend State} {c : IsCas b} (p : Peers c Disciplined) (h : Host)
    (effects : Effects b.World) (quiet : Quiet c Disciplined effects) (policy : Policy)
    (owner : String) where
  -- If the other writers of the release state never lower its route's revision, change its weight
  -- under the same revision, lower the highest accepted version or change the model, then a tick of
  -- the controller, with whatever outcome, loses no version and leaves a history of which this holds.
  pub tick-Disciplined :
      (w : b.World)
      → Chain Disciplined (c.versions w)
      → Later (c.versions w) (c.versions (tick b h effects policy owner w).1)
        × Chain Disciplined (c.versions (tick b h effects policy owner w).1)
  tick-Disciplined w chain =
      let k = tick-Keeping p h effects quiet policy owner (Move-Disciplined policy.timeout) in
      (k.later w, k.chained w chain)

  -- Under the same conditions, two versions of the history after the tick whose routes have the same
  -- revision route the same weight, so the revision that a router acknowledges names one weight.
  pub tick-revisions :
      (w : b.World) (r q : ℕ) (x y : State)
      → Chain Disciplined (c.versions w)
      → At r x (c.versions (tick b h effects policy owner w).1)
      → At q y (c.versions (tick b h effects policy owner w).1)
      → x.route.revision ≡ y.route.revision
      → x.route.weight ≡ y.route.weight
  tick-revisions w r q x y chain =
      revision-weight c (tick b h effects policy owner w).1 r q x y (tick-Disciplined w chain).1
