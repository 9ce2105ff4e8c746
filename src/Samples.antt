-- ===== src/Samples.antt =====
-- Observed metrics, the release policy and the assessment of a canary: control_plane/policy.py and
-- `assess` of control_plane/controller.py.
pub mod Assessment
use ml_template.Prelude.{
  ℕ, Bool, false, eqb, leb, ltb, String, List, Option, ◌&&◌, true, [], if◌then◌else◌, ◌∷◌, ◌*◌,
  ◌||◌, not, ◌++◌, none, some,
}

-- A Python float as the code compares it: missing, NaN or infinite; negative; or a number of
-- millionths. Limits of the policy are in millionths, times in microseconds.
pub data Sample : Type 0 where
  not_finite below_zero : Sample
  at : ℕ → Sample

pub record Metrics : Type 0 where
  pub up : Sample
  pub age : Sample
  pub traffic : Sample
  pub success : Sample
  pub errors : Sample
  pub p95 : Sample
  pub stable_errors : Sample

pub record Policy : Type 0 where
  pub minimum : ℕ
  pub dwell : ℕ
  pub timeout : ℕ
  pub error_limit : ℕ
  pub p95_limit : ℕ

-- one, in millionths
abbrev pub unit : ℕ
unit = 1000000

-- `math.isfinite`
abbrev pub is_finite : Sample → Bool
is_finite not_finite = false
is_finite below_zero = true
is_finite (at _) = true

-- `value == n`
abbrev pub equals : Sample → ℕ → Bool
equals (at m) n = eqb m n
equals _ n = false

-- `0 <= value <= n`
abbrev pub up_to : Sample → ℕ → Bool
up_to (at m) n = leb m n
up_to _ n = false

-- `0 <= value < n`
abbrev pub under : Sample → ℕ → Bool
under (at m) n = ltb m n
under _ n = false

-- `value <= 0`, of a finite value
abbrev pub not_positive : Sample → Bool
not_positive (at m) = eqb m 0
not_positive _ = true

-- `value < 0`
abbrev pub is_negative : Sample → Bool
is_negative below_zero = true
is_negative _ = false

-- `value < n`, of a finite value and a whole number of at least 0
abbrev pub less : Sample → ℕ → Bool
less (at m) n = ltb m n
less _ n = true

all_finite : Metrics → Bool
all_finite m =
    is_finite m.up
    && is_finite m.age
    && is_finite m.traffic
    && is_finite m.success
    && is_finite m.errors
    && is_finite m.p95
    && is_finite m.stable_errors

-- the reason if the test fails
abbrev pub unless : Bool → String → List String
unless true reason = []
unless false reason = reason ∷ []

-- `assess(values, error_limit, p95_limit)`
unfoldable pub assess : Metrics → ℕ → ℕ → List String
unfolding all_finite
assess m error_limit p95_limit =
    if all_finite m
    then unless (equals m.up unit && up_to m.age (15 * unit)) "router_unavailable_or_stale"
      ++ (unless (not (not_positive m.traffic)) "no_real_canary_traffic"
          ++ (unless (not (not_positive m.success)) "no_successful_canary_predictions"
              ++ (unless (under m.errors error_limit) "canary_errors"
                  ++ (unless (under m.stable_errors error_limit) "stable_errors"
                      ++ unless (under m.p95 p95_limit) "canary_latency"))))
    else "invalid_canary_metrics" ∷ []

-- the test of `Policy.from_env` on the parsed values; the values that are no finite number are
-- those that its environment lacks here
unfoldable pub policy_from : Sample → Sample → Sample → Sample → ℕ → Option Policy
policy_from (at dwell) (at timeout) (at error_limit) (at p95_limit) minimum =
    if ltb minimum 1
      || leb timeout dwell
      || not (ltb 0 error_limit && leb error_limit unit)
      || leb p95_limit 0
    then none
    else some (record {
      minimum = minimum;
      dwell = dwell;
      timeout = timeout;
      error_limit = error_limit;
      p95_limit = p95_limit;
    })
policy_from _ _ _ _ minimum = none
