-- ===== src/Legacy/Effects.antt =====
-- `Effects` of control_plane/controller.py: the cluster, as the controller sees it.
pub mod Keeping
use ml_template.Prelude.Actions.{Action, return, raise, lift, catch, ◌>>=◌, ◌>>◌}
use ml_template.Prelude.{
  ℕ, String, Bool, Option, none, some, check, value_error, transport, true, if◌then◌else◌, ◌==◌,
  false, ◌&&◌, Option_eq, String_eq, Error,
}
use ml_template.Legacy.Types.{Release}
use ml_template.Release.Controller.{Lane, RouterView}
use ml_template.Samples.{Metrics}
use ml_template.Legacy.Candidates.{model}

-- The metadata of a backend: its name, and the `str` of its version.
pub record Metadata : Type 0 where
  pub model_name : Option String
  pub model_version : String

-- The calls of the Kubernetes client, of the backends, the router and Prometheus. A connection that
-- fails raises `transport`, and an HTTP error response `http`.
pub record Cluster (W : Type 0) : Type 0 where
  pub ensure : Lane → String → ℕ → Action W (Unit {0})
  pub is_ready : Lane → String → Action W Bool
  pub health : Lane → Action W (Unit {0})
  pub metadata : Lane → Action W Metadata
  pub router : Action W RouterView
  pub metrics : Action W Metrics

module _ {W : Type 0} (cluster : Cluster W) (decimal_text : ℕ → String) where
  probe : Lane → Action W Metadata
  probe lane = do cluster.health lane; cluster.metadata lane

  matches_release : Release → Metadata → Bool
  matches_release c m = m.model_name == some model && m.model_version == decimal_text c.version

  expect_release : Release → Metadata → Action W Bool
  unfolding matches_release
  expect_release c m = do
    lift (check (matches_release c m) (value_error "Backend metadata contract mismatch"))
    return true

  -- `ready`
  unfoldable pub ready : Lane → Release → Action W Bool
  unfolding probe expect_release
  ready lane c = do
    up ← cluster.is_ready lane c.digest
    (if up then (do m ← probe lane; expect_release c m) else return false)

  -- a connection that fails has no answer; other errors are raised on
  unanswered : Error → Action W (Option Metadata)
  unanswered transport = return none
  unanswered e = raise e

  try_probe : Lane → Action W (Option Metadata)
  unfolding probe unanswered
  try_probe lane = catch (do m ← probe lane; return (some m)) unanswered

  expect_answer : Release → Option Metadata → Action W (Option Bool)
  unfolding expect_release
  expect_answer c none = return none
  expect_answer c (some m) = do r ← expect_release c m; return (some r)

  -- `ready` with `wait_transport`, whose BackendTransportUnavailable is none here
  unfoldable pub ready_or_wait : Lane → Release → Action W (Option Bool)
  unfolding try_probe expect_answer
  ready_or_wait lane c = do
    up ← cluster.is_ready lane c.digest
    (if up then (do answer ← try_probe lane; expect_answer c answer) else return (some false))
