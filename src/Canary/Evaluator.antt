-- ===== src/Canary/Evaluator.antt =====
-- canary/evaluator.py: the metrics are read, judged, and the weight is raised or set to 0.
use Prim.Native.String.{◌++◌ as text_append}
use ml_template.Prelude.Actions.{Action, return, raise, lift, catch, ◌>>=◌}
use ml_template.Prelude.{
  ℕ, Bool, Option, Error, if◌then◌else◌, ltb, List, not, ◌∷◌, Result, err, ok, false, true, ◌+◌, [],
  ◌++◌, ◌*◌, String, value_error, key_error, type_error, transport, http,
}
use ml_template.Release.Types.{Time}
use ml_template.Samples.{Sample, unit, is_finite, equals, up_to, under, not_positive, unless}

-- The keys of QUERIES.
pub data Metric : Type 0 where
  up stable_up age stable_age traffic success error_ratio p95 proxy_error_ratio : Metric

-- An answer of Prometheus: whether its status is success, and `float(row['value'][1])` of each row.
pub record Answer : Type 0 where
  pub succeeded : Bool
  pub rows : List (Result Sample)

-- What `observe` returns.
pub record Observed : Type 0 where
  pub up : Sample
  pub stable_up : Sample
  pub age : Sample
  pub stable_age : Sample
  pub traffic : Sample
  pub success : Sample
  pub error_ratio : Sample
  pub p95 : Sample
  pub proxy_error_ratio : Sample

-- The rows that are written, without their time and metrics.
pub data Event : Type 0 where
  start healthy_at timeout : ℕ → Event
  rollback : ℕ → List String → Event
  rollback_failed : ℕ → Event
  promote : ℕ → ℕ → Event

-- The clock, `time.sleep`, the calls of Prometheus and of the router, and the output file.
-- `post_weight` has the weight of the answer, none if it names none.
pub record Demo (W : Type 0) : Type 0 where
  pub monotonic : W → Time × W
  pub sleep : Time → W → W
  pub prometheus : Metric → Action W Answer
  pub post_weight : ℕ → Action W (Option ℕ)
  pub state_weight : Action W ℕ
  pub write : Event → Action W (Unit {0})

-- what the metrics call for
pub data Judgement : Type 0 where
  wait : Judgement
  healthy : Judgement
  failing : List String → Judgement

-- how a run ends; the last is the model's own
pub data Ending : Type 0 where
  rolled_back timed_out out_of_fuel : Ending

single_row : List (Result Sample) → Result Sample
single_row (ok v ∷ []) = if is_finite v then ok v else err (value_error "Non-finite metric")
single_row (err e ∷ []) = err e
single_row _ = err (value_error "Expected one series")

value_of : Answer → Result Sample
unfolding single_row
value_of a = if a.succeeded then single_row a.rows else err (value_error "Prometheus query failed")

missing : Observed → List String
missing m =
    unless (is_finite m.up) "missing/nonfinite up"
    ++ unless (is_finite m.stable_up) "missing/nonfinite stable_up"
    ++ unless (is_finite m.age) "missing/nonfinite age"
    ++ unless (is_finite m.stable_age) "missing/nonfinite stable_age"
    ++ unless (is_finite m.traffic) "missing/nonfinite traffic"
    ++ unless (is_finite m.success) "missing/nonfinite success"
    ++ unless (is_finite m.error_ratio) "missing/nonfinite error_ratio"
    ++ unless (is_finite m.p95) "missing/nonfinite p95"
    ++ unless (is_finite m.proxy_error_ratio) "missing/nonfinite proxy_error_ratio"

-- .05 and .1, in millionths
abbrev pub ratio_limit : ℕ
ratio_limit = 50000

abbrev pub latency_limit : ℕ
latency_limit = 100000

breaches : Observed → List String
breaches m =
    unless (equals m.up unit) "up != 1"
    ++ unless (equals m.stable_up unit) "stable_up != 1"
    ++ unless (up_to m.age (15 * unit)) "age stale"
    ++ unless (up_to m.stable_age (15 * unit)) "stable_age stale"
    ++ unless (not (not_positive m.traffic)) "zero canary traffic"
    ++ unless (not (not_positive m.success)) "zero successful inference"
    ++ unless (under m.error_ratio ratio_limit) "error_ratio >= 5%"
    ++ unless (under m.proxy_error_ratio ratio_limit) "proxy_error_ratio >= 5%"
    ++ unless (under m.p95 latency_limit) "p95 >= 100ms"

assess_found : List String → Observed → List String
unfolding breaches
assess_found [] m = breaches m
assess_found (r ∷ rest) m = r ∷ rest

-- `assess(m)`
unfoldable pub assess : Observed → List String
unfolding missing assess_found
assess m = assess_found (missing m) m

unfoldable pub judged : List String → Judgement
judged [] = healthy
judged (r ∷ rest) = failing (r ∷ rest)

-- `except (OSError, ValueError, KeyError, TypeError)`; URLError and HTTPError are kinds of OSError
is_unavailable : Error → Bool
is_unavailable (value_error _) = true
is_unavailable key_error = true
is_unavailable type_error = true
is_unavailable transport = true
is_unavailable http = true
is_unavailable e = false

-- The parameters: what the evaluator calls, and `str` of an exception.
module _ {W : Type 0} (demo : Demo W) (message_of : Error → String) where
  unfoldable pub now : Action W Time
  now w = let (t, w') = demo.monotonic w in (ok t, w')

  unfoldable pub pause : Time → Action W (Unit {0})
  pause t w = (ok tt, demo.sleep t w)

  -- `query`
  unfoldable pub query : Metric → Action W Sample
  unfolding value_of
  query k = do a ← demo.prometheus k; lift (value_of a)

  unfoldable pub observe : Action W Observed
  unfolding query
  observe = do
    v1 ← query up
    v2 ← query stable_up
    v3 ← query age
    v4 ← query stable_age
    v5 ← query traffic
    v6 ← query success
    v7 ← query error_ratio
    v8 ← query p95
    v9 ← query proxy_error_ratio
    return (record {
      up = v1;
      stable_up = v2;
      age = v3;
      stable_age = v4;
      traffic = v5;
      success = v6;
      error_ratio = v7;
      p95 = v8;
      proxy_error_ratio = v9;
    })

  -- the four metrics that are read in every turn
  unfoldable pub screen : Action W (List String)
  unfolding query
  screen = do
    v1 ← query up
    v2 ← query stable_up
    v3 ← query age
    v4 ← query stable_age
    return (
        unless (equals v1 unit) "up unavailable"
        ++ (unless (equals v2 unit) "stable_up unavailable"
            ++ (unless (up_to v3 (15 * unit)) "age stale"
                ++ unless (up_to v4 (15 * unit)) "stable_age stale")))

  -- the rest, once the weight has stood for the dwell time
  unfoldable pub look_closer : Time → Time → List String → Action W Judgement
  unfolding now observe assess judged
  look_closer changed dwell (r ∷ rest) = return (failing (r ∷ rest))
  look_closer changed dwell [] = do
    t ← now
    (if ltb t (changed + dwell) then return wait else (do m ← observe; return (judged (assess m))))

  unfoldable pub unavailable : Error → Action W Judgement
  unfolding is_unavailable
  unavailable e =
      if is_unavailable e
      then return (failing (text_append "metrics unavailable: " (message_of e) ∷ []))
      else raise e

  -- the `try` of a turn
  unfoldable pub judge : Time → Time → Action W Judgement
  unfolding screen look_closer unavailable
  judge changed dwell = catch (do reasons ← screen; look_closer changed dwell reasons) unavailable
