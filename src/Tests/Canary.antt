-- ===== src/Tests/Canary.antt =====
-- A run of the evaluator that finds no metrics.
use ml_template.Prelude.{
  ℕ, ◌+◌, ok, some, false, [], ◌≡◌, ◌≢◌, refl, String, Error, option_beq, arith,
}
use ml_template.Canary.Evaluator.{Demo, out_of_fuel, rolled_back}
use ml_template.Canary.Run.{run}
use ml_template.Canary.Progress.{Clock, run-Ends}
use ml_template.Canary.Acknowledged.{Acknowledged, run-Acknowledged}

-- The time, and the weight of the router.
record Bench : Type 0 where
  pub time : ℕ
  pub weight : ℕ

abbrev demo : Demo Bench
demo = record {
  monotonic = λ w. (w.time, w);
  sleep = λ t w. record w { time = w.time + t };
  prometheus = λ k w. (ok (record { succeeded = false; rows = [] }), w);
  post_weight = λ v w. (ok (some v), record w { weight = v });
  state_weight = λ w. (ok w.weight, w);
  write = λ e w. (ok tt, w);
}

clock : Clock demo
clock = record {
  reading = λ w. w.time;
  reads = λ w. omega arith;
  reads_on = λ w. omega arith;
  sleeps = λ t w. omega arith;
  asks = λ k. record { grows = λ w. omega arith };
  posts = λ v. record { grows = λ w. omega arith };
  views = record { grows = λ w. omega arith };
  writes = λ e. record { grows = λ w. omega arith };
}

abbrev message_of : Error → String
message_of e = "Prometheus query failed"

abbrev at_ten : Bench
at_ten = record { time = 5; weight = 10 }

abbrev at_zero : Bench
at_zero = record { time = 8; weight = 0 }

rolls_back : run demo message_of 35 3 600 201 at_ten ≡ (ok rolled_back, at_zero)
unfolding run option_beq
rolls_back = refl

run-Ends_example : (run demo message_of 35 3 600 202 at_ten).0 ≢ ok out_of_fuel
run-Ends_example = run-Ends demo clock message_of 35 3 600 201 at_ten (omega arith)

run-Acknowledged_example : Acknowledged demo at_zero
run-Acknowledged_example = run-Acknowledged demo message_of 35 3 600 201 at_ten at_zero rolls_back
