-- ===== src/Serving/Scaling.antt =====
-- `predictor_policy` of control_plane/autoscaling_v2.py.
pub mod Bounds
use ml_template.Prelude.{
  ℕ, String, Bool, List, Option, some, none, Result, check, value_error, ◌>>=◌, ◌>>◌, ◌∷◌, or_raise,
  if◌then◌else◌, leb, codes, ◌==◌, ◌*◌, ◌&&◌, [], ◌+◌, String_eq, ℕ_eq, ok,
}
use ml_template.Release.Controller.{Lane, stable, canary}

-- What a lane may scale to: `target` is the CPU target, with the fixed behavior that
-- `scale_up` and `scale_down` describe, and none for a lane with one replica.
pub record Scaling : Type 0 where
  pub min_replicas : ℕ
  pub max_replicas : ℕ
  pub target : Option ℕ

-- Seconds of stabilization, and one pod in so many seconds.
pub record Behavior : Type 0 where
  pub window : ℕ
  pub pods : ℕ
  pub period : ℕ

abbrev pub scale_up : Behavior
scale_up = record { window = 0; pods = 1; period = 60 }

abbrev pub scale_down : Behavior
scale_down = record { window = 300; pods = 1; period = 60 }

abbrev pub Environment : Type 0
Environment = List (String × String)

unfoldable pub setting : String → String → Environment → String
setting key default [] = default
setting key default ((k, v) ∷ rest) = if k == key then v else setting key default rest

-- `int` of a text for which `isdecimal` holds: the value of a digit is a parameter
module _ (digit_value : ℕ → Option ℕ) where
  digits_from : ℕ → List ℕ → Option ℕ
  digits_from n [] = some n
  digits_from n (c ∷ s) = elim (digit_value c) [ none ↦ none | some d ↦ digits_from (n * 10 + d) s ]

  unfoldable pub decimal_setting : List ℕ → Option ℕ
  unfolding digits_from
  decimal_setting [] = none
  decimal_setting (c ∷ s) = digits_from 0 (c ∷ s)

  -- one turn of the loop over DEFAULTS
  read_setting : Environment → String → String → Result ℕ
  unfolding decimal_setting setting
  read_setting env key default =
      or_raise (decimal_setting (codes (setting key default env)))
        (value_error "Invalid autoscaling setting")

  scaling_of : ℕ → ℕ → Scaling
  scaling_of highest target =
      if highest == 1
      then record { min_replicas = 1; max_replicas = 1; target = none }
      else record { min_replicas = 1; max_replicas = highest; target = some target }

  -- a lane is one of the two that the code knows
  unfoldable pub predictor_policy : Lane → Environment → Result Scaling
  unfolding read_setting scaling_of
  predictor_policy lane env = do
    most_stable ← read_setting env "V2_STABLE_MAX_REPLICAS" "1"
    most_canary ← read_setting env "V2_CANARY_MAX_REPLICAS" "1"
    target ← read_setting env "V2_HPA_CPU_TARGET" "80"
    check (leb 1 most_stable && leb most_stable 2 && (leb 1 most_canary && leb most_canary 2))
        (value_error "Replica ceiling exceeds reviewed policy")
    check (leb (most_stable + most_canary) 3)
        (value_error "Combined replica ceiling leaves no rollout headroom")
    check (leb 50 target && leb target 90) (value_error "CPU target outside reviewed range")
    ok (scaling_of (elim lane [ stable ↦ most_stable | canary ↦ most_canary ]) target)
