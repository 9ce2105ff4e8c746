-- ===== src/Traffic/Share.antt =====
-- How many requests go to the canary.
use ml_template.Traffic.{choose_track}
use ml_template.Release.Controller.{Lane, stable, canary}
use ml_template.Prelude.{ℕ, ◌≤◌, suc, ◌+◌, ◌≡◌, arith, ◌*◌, zero, ◌/◌}

unfoldable pub is_canary : Lane → ℕ
is_canary stable = 0
is_canary canary = 1

-- The canary's share of the `n` requests from an index on.
unfoldable pub canary_count : ℕ → ℕ → ℕ → ℕ
unfolding is_canary
canary_count percent start zero = 0
canary_count percent start (suc n) =
    is_canary (choose_track start percent) + canary_count percent (start + 1) n

-- A request moves the product of index and percentage by one hundred, or not.
pub choose_track-step :
    (i p : ℕ) → p ≤ 100 → is_canary (choose_track i p) + i * p / 100 ≡ (i + 1) * p / 100
unfolding choose_track is_canary
choose_track-step i p h = ground arith

count_from : (p i n : ℕ) → p ≤ 100 → canary_count p i n + i * p / 100 ≡ (i + n) * p / 100
unfolding canary_count
count_from p i zero h = omega arith
count_from p i (suc n) h = omega (arith, choose_track-step i p h, count_from p (i + 1) n h)

-- Of any hundred requests in a row, the canary gets exactly the percentage.
pub hundred_in_a_row : (p start : ℕ) → p ≤ 100 → canary_count p start 100 ≡ p
hundred_in_a_row p start h = omega (arith, count_from p start 100 h)
