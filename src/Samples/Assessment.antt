-- ===== src/Samples/Assessment.antt =====
-- When a canary is healthy.
use ml_template.Samples.{
  Metrics, Sample, at, assess, unit, under, up_to, equals, is_finite, not_positive, all_finite,
  unless, not_finite, below_zero,
}
use ml_template.Prelude.{
  ℕ, ◌≡◌, [], ◌≤◌, ◌*◌, ◌↔◌, ◌<◌, arith, Bool, not, List, Bool-cases, String, true, ◌&&◌, and_iff,
  false, inl, ◌++◌, inr, refl,
}

-- The value is a number in the range.
abbrev pub AtMost : Sample → ℕ → Type 0
AtMost (at k) n = k ≤ n
AtMost _ n = ⊥

abbrev pub Below : Sample → ℕ → Type 0
Below (at k) n = k < n
Below _ n = ⊥

abbrev pub IsPositive : Sample → Type 0
IsPositive (at k) = 0 < k
IsPositive _ = ⊥

-- The values at which a canary passes.
pub record IsHealthy (m : Metrics) (error_limit p95_limit : ℕ) : Type 0 where
  pub up : m.up ≡ at unit
  pub age : AtMost m.age (15 * unit)
  pub traffic : IsPositive m.traffic
  pub success : IsPositive m.success
  pub errors : Below m.errors error_limit
  pub stable_errors : Below m.stable_errors error_limit
  pub p95 : Below m.p95 p95_limit

unless-append-nil :
    (b : Bool) (r : String) (xs : List String) → unless b r ++ xs ≡ [] → (b ≡ true) × (xs ≡ [])
unless-append-nil true r xs h = (refl, h)
unless-append-nil false r xs h = cc

unless-nil : (b : Bool) (r : String) → unless b r ≡ [] → b ≡ true
unless-nil true r h = refl
unless-nil false r h = cc

under-Below : (s : Sample) (n : ℕ) → under s n ≡ true → Below s n
under-Below (at k) n h = ground arith
under-Below not_finite n h = cc
under-Below below_zero n h = cc

up_to-AtMost : (s : Sample) (n : ℕ) → up_to s n ≡ true → AtMost s n
up_to-AtMost (at k) n h = ground arith
up_to-AtMost not_finite n h = cc
up_to-AtMost below_zero n h = cc

equals-at : (s : Sample) (n : ℕ) → equals s n ≡ true → s ≡ at n
equals-at (at k) n h = ground arith
equals-at not_finite n h = cc
equals-at below_zero n h = cc

positive : (s : Sample) → not (not_positive s) ≡ true → IsPositive s
positive (at k) h = ground arith
positive not_finite h = cc
positive below_zero h = cc

-- The reasons, of finite values.
abbrev reasons : Metrics → ℕ → ℕ → List String
reasons m error_limit p95_limit =
    unless (equals m.up unit && up_to m.age (15 * unit)) "router_unavailable_or_stale"
    ++ (unless (not (not_positive m.traffic)) "no_real_canary_traffic"
        ++ (unless (not (not_positive m.success)) "no_successful_canary_predictions"
            ++ (unless (under m.errors error_limit) "canary_errors"
                ++ (unless (under m.stable_errors error_limit) "stable_errors"
                    ++ unless (under m.p95 p95_limit) "canary_latency"))))

reasons-nil : (m : Metrics) (e p : ℕ) → reasons m e p ≡ [] → IsHealthy m e p
reasons-nil m e p h =
    let (b1, h1) = unless-append-nil (equals m.up unit && up_to m.age (15 * unit)) _ _ h in
    let (b2, h2) = unless-append-nil (not (not_positive m.traffic)) _ _ h1 in
    let (b3, h3) = unless-append-nil (not (not_positive m.success)) _ _ h2 in
    let (b4, h4) = unless-append-nil (under m.errors e) _ _ h3 in
    let (b5, h5) = unless-append-nil (under m.stable_errors e) _ _ h4 in
    let (fresh, aged) = (and_iff (equals m.up unit) (up_to m.age (15 * unit))).0 b1 in
    record {
      up = equals-at m.up unit fresh;
      age = up_to-AtMost m.age (15 * unit) aged;
      traffic = positive m.traffic b2;
      success = positive m.success b3;
      errors = under-Below m.errors e b4;
      stable_errors = under-Below m.stable_errors e b5;
      p95 = under-Below m.p95 p (unless-nil (under m.p95 p) _ h5);
    }

assess-nil : (m : Metrics) (e p : ℕ) → assess m e p ≡ [] → IsHealthy m e p
unfolding assess
assess-nil m e p h = elim (Bool-cases (all_finite m)) [
  | inl finite ↦ reasons-nil m e p (rw finite at h)
  | inr missing ↦ let bad = (rw missing at h) in cc
]

Below-under : (s : Sample) (n : ℕ) → Below s n → (is_finite s ≡ true) × (under s n ≡ true)
Below-under (at k) n h = ground arith
Below-under not_finite n h = absurd h
Below-under below_zero n h = absurd h

AtMost-up_to : (s : Sample) (n : ℕ) → AtMost s n → (is_finite s ≡ true) × (up_to s n ≡ true)
AtMost-up_to (at k) n h = ground arith
AtMost-up_to not_finite n h = absurd h
AtMost-up_to below_zero n h = absurd h

IsPositive-test : (s : Sample) → IsPositive s → (is_finite s ≡ true) × (not_positive s ≡ false)
IsPositive-test (at k) h = ground arith
IsPositive-test not_finite h = absurd h
IsPositive-test below_zero h = absurd h

healthy-assess : (m : Metrics) (e p : ℕ) → IsHealthy m e p → assess m e p ≡ []
unfolding assess
healthy-assess m e p h =
    rw
      (
        h.up,
        (AtMost-up_to m.age (15 * unit) h.age).0,
        (AtMost-up_to m.age (15 * unit) h.age).1,
        (IsPositive-test m.traffic h.traffic).0,
        (IsPositive-test m.traffic h.traffic).1,
        (IsPositive-test m.success h.success).0,
        (IsPositive-test m.success h.success).1,
        (Below-under m.errors e h.errors).0,
        (Below-under m.errors e h.errors).1,
        (Below-under m.stable_errors e h.stable_errors).0,
        (Below-under m.stable_errors e h.stable_errors).1,
        (Below-under m.p95 p h.p95).0,
        (Below-under m.p95 p h.p95).1,
      )
      refl

-- `assess` gives no reason exactly if every value passes.
pub assess-nil_iff :
    (m : Metrics) (error_limit p95_limit : ℕ)
    → (assess m error_limit p95_limit ≡ []) ↔ IsHealthy m error_limit p95_limit
assess-nil_iff m e p = (assess-nil m e p, healthy-assess m e p)
