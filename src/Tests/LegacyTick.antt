-- ===== src/Tests/LegacyTick.antt =====
-- A tick of the first controller, on the store in memory.
use ml_template.Backend.Keeping.{Keeping-return}
use ml_template.Legacy.Effects.Keeping.{Quiet}
use ml_template.Legacy.Effects.{Cluster}
use ml_template.Legacy.Tick.{tick}
use ml_template.Legacy.Tick.Chain.{tick-Chain}
use ml_template.Legacy.Tick.Bounds.{tick-IsBounded}
use ml_template.Legacy.Steps.{Step, ingested, initial}
use ml_template.Legacy.Steps.Keeping.{IsBounded}
use ml_template.Legacy.Types.{State}
use ml_template.Legacy.Candidates.{candidate, model}
use ml_template.Tests.Legacy.{release, queued, accepts, library, stored}
use ml_template.Tests.Store.{policy, metrics}
use ml_template.Backend.Memory.{Memory, memory, memory_IsCas, memory_Peers, numbered}
use ml_template.Backend.Chains.{Chain, At-Later}
use ml_template.Backend.History.{Later}
use ml_template.Prelude.Actions.{return}
use ml_template.Prelude.{refl, some, none, inl, true}

abbrev cluster : Cluster (Memory State)
cluster = record {
  ensure = λ lane d n. return tt;
  is_ready = λ lane d. return true;
  health = λ lane. return tt;
  metadata = λ lane. return (record { model_name = some model; model_version = "2" });
  router = return (record { ready = true; weight = some 0; revision = some 0 });
  metrics = return metrics;
}

cluster-Quiet : Quiet {b = memory State} memory_IsCas cluster
cluster-Quiet = record {
  ensures = λ lane d n. Keeping-return tt;
  readies = λ lane d. Keeping-return true;
  healths = λ lane. Keeping-return tt;
  describes = λ lane. Keeping-return _;
  routes = Keeping-return _;
  measures = Keeping-return metrics;
}

abbrev run : Memory State → Memory State
run w = (tick (memory State) library cluster policy "a" (λ n. "2") (λ e. "Exception") w).1

history :
    Later (numbered stored.states) (numbered (run stored).states)
    × Chain Step (numbered (run stored).states)
history =
    tick-Chain (memory_Peers Step) library cluster cluster-Quiet policy "a" (λ n. "2")
      (λ e. "Exception") stored (ingested (candidate release) none 7 accepts, tt)

tick-IsBounded_example : IsBounded queued
tick-IsBounded_example =
    tick-IsBounded (memory_Peers Step) library cluster cluster-Quiet policy "a" (λ n. "2")
      (λ e. "Exception") stored 1 queued (ingested (candidate release) none 7 accepts, tt) initial
      (At-Later 1 queued (inl (refl, refl)) history.0)
