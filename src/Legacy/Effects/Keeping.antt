-- ===== src/Legacy/Effects/Keeping.antt =====
-- The readiness checks beside calls of the cluster that write no release state.
use ml_template.Backend.Keeping.{
  Keeping, Keeping-return, Keeping-raise, Keeping-bind, Keeping-if, Keeping-lift, Keeping-catch,
}
use ml_template.Backend.{Backend, IsCas}
use ml_template.Legacy.Types.{State, Release}
use ml_template.Legacy.Steps.{Step}
use ml_template.Legacy.Effects.{
  Cluster, Metadata, ready, ready_or_wait, probe, expect_release, expect_answer, unanswered,
  try_probe,
}
use ml_template.Release.Controller.{Lane}
use ml_template.Prelude.{String, ℕ, some, none, transport, Error, Option}

-- Calls of the cluster that write no release state.
pub record Quiet {b : Backend State} (c : IsCas b) (cluster : Cluster b.World) : Type 0 where
  pub ensures : (lane : Lane) (d : String) (n : ℕ) → Keeping c Step (cluster.ensure lane d n)
  pub readies : (lane : Lane) (d : String) → Keeping c Step (cluster.is_ready lane d)
  pub healths : (lane : Lane) → Keeping c Step (cluster.health lane)
  pub describes : (lane : Lane) → Keeping c Step (cluster.metadata lane)
  pub routes : Keeping c Step cluster.router
  pub measures : Keeping c Step cluster.metrics

module _ {b : Backend State} {c : IsCas b} (cluster : Cluster b.World) (quiet : Quiet c cluster)
    (decimal_text : ℕ → String) where
  probe-Keeping : (lane : Lane) → Keeping c Step (probe cluster decimal_text lane)
  unfolding probe
  probe-Keeping lane = Keeping-bind _ _ (quiet.healths lane) λ u. quiet.describes lane

  expect_release-Keeping :
      (r : Release) (m : Metadata) → Keeping c Step (expect_release cluster decimal_text r m)
  unfolding expect_release
  expect_release-Keeping r m = Keeping-bind _ _ (Keeping-lift _) λ u. Keeping-return _

  pub ready-Keeping :
      (lane : Lane) (r : Release) → Keeping c Step (ready cluster decimal_text lane r)
  unfolding ready
  ready-Keeping lane r = Keeping-bind _ _ (quiet.readies lane r.digest) λ up.
      Keeping-if up _ _ (Keeping-bind _ _ (probe-Keeping lane) λ m. expect_release-Keeping r m)
        (Keeping-return _)

  unanswered-Keeping : (e : Error) → Keeping c Step (unanswered cluster decimal_text e)
  unfolding unanswered
  unanswered-Keeping transport = Keeping-return _
  unanswered-Keeping e = Keeping-raise e

  try_probe-Keeping : (lane : Lane) → Keeping c Step (try_probe cluster decimal_text lane)
  unfolding try_probe
  try_probe-Keeping lane =
      Keeping-catch _ _ (Keeping-bind _ _ (probe-Keeping lane) λ m. Keeping-return _)
        unanswered-Keeping

  expect_answer-Keeping :
      (r : Release) (answer : Option Metadata)
      → Keeping c Step (expect_answer cluster decimal_text r answer)
  unfolding expect_answer
  expect_answer-Keeping r none = Keeping-return _
  expect_answer-Keeping r (some m) =
      Keeping-bind _ _ (expect_release-Keeping r m) λ x. Keeping-return _

  pub ready_or_wait-Keeping :
      (lane : Lane) (r : Release) → Keeping c Step (ready_or_wait cluster decimal_text lane r)
  unfolding ready_or_wait
  ready_or_wait-Keeping lane r = Keeping-bind _ _ (quiet.readies lane r.digest) λ up.
      Keeping-if up _ _
        (Keeping-bind _ _ (try_probe-Keeping lane) λ answer. expect_answer-Keeping r answer)
        (Keeping-return _)
