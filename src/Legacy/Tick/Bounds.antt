-- ===== src/Legacy/Tick/Bounds.antt =====
-- What every version of the state keeps to while the controller ticks.
use ml_template.Backend.{Backend, IsCas}
use ml_template.Backend.Chains.{Peers, Chain, At}
use ml_template.Backend.Origin.{Oldest, Oldest-Later, each-has}
use ml_template.Samples.{Policy}
use ml_template.Legacy.Types.{State, Library}
use ml_template.Legacy.Steps.{Step, Reachable, after}
use ml_template.Legacy.Steps.Keeping.{IsBounded}
use ml_template.Legacy.Steps.Bounds.{Reachable-IsBounded}
use ml_template.Legacy.Effects.{Cluster}
use ml_template.Legacy.Effects.Keeping.{Quiet}
use ml_template.Legacy.Tick.Chain.{tick-Chain}
use ml_template.Legacy.Tick.{tick}
use ml_template.Prelude.{String, ℕ, Error}

module _ {b : Backend State} {c : IsCas b} (p : Peers c Step) (lib : Library)
    (cluster : Cluster b.World) (quiet : Quiet c cluster) (policy : Policy) (owner : String)
    (decimal_text : ℕ → String) (class_of : Error → String) where
  -- If the state began reachable, every writer makes steps, and the calls of the cluster do not write
  -- it, then every version after a tick has a bounded queue without double digests, bounded
  -- histories, and a weight that is one of the stages.
  pub tick-IsBounded :
      (w : b.World) (r : ℕ) (x : State)
      → Chain Step (c.versions w)
      → Oldest Reachable (c.versions w)
      → At r x (c.versions (tick b lib cluster policy owner decimal_text class_of w).1)
      → IsBounded x
  tick-IsBounded w r x chain oldest at_r =
      let ticked = tick-Chain p lib cluster quiet policy owner decimal_text class_of w chain in
      Reachable-IsBounded (
        each-has Reachable (λ s t. after) r x _ ticked.1 (Oldest-Later Reachable oldest ticked.0)
          at_r)
