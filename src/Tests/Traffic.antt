-- ===== src/Tests/Traffic.antt =====
-- The router and the assessment, at concrete numbers.
use ml_template.Prelude.{
  List, ◌∷◌, ◌≡◌, refl, arith, ◌≤◌, [], some, ◌<◌, ◌↔◌, ◌+◌, ◌*◌, true, option_beq,
}
use ml_template.Traffic.Share.{canary_count, hundred_in_a_row}
use ml_template.Traffic.{choose_track}
use ml_template.Samples.{Metrics, assess, at}
use ml_template.Release.Types.{State}
use ml_template.Traffic.Session.{Event, asks, reads, counts}
use ml_template.Traffic.Routing.{fresh, set, Routing, choose, status, is_attended}
use ml_template.Tests.Data.{empty_state}
use ml_template.Samples.Assessment.{IsHealthy, assess-nil_iff}
use ml_template.Release.Controller.{canary}
use ml_template.Traffic.Fresh.{choose-canary}

tenth : canary_count 10 7 100 ≡ 10
unfolding canary_count choose_track
tenth = refl

hundred_in_a_row_example : canary_count 25 7 100 ≡ 25
hundred_in_a_row_example = hundred_in_a_row 25 7 (omega arith)

abbrev good : Metrics
good = record {
  up = at 1000000;
  age = at 2000000;
  traffic = at 9000000;
  success = at 9000000;
  errors = at 0;
  p95 = at 30000;
  stable_errors = at 0;
}

assess-nil_iff_example : (assess good 50000 100000 ≡ []) ↔ IsHealthy good 50000 100000
assess-nil_iff_example = assess-nil_iff good 50000 100000

abbrev half : State
half = record empty_state { route = record { weight = 50; revision = 9 } }

abbrev routing : Routing
routing = record { state = some half; updated = 1000; sequence = 1; revision = some 9 }

chooses : choose 2000 2000 routing ≡ (some canary, record routing { sequence = 2 })
unfolding choose status choose_track is_attended
chooses = refl

choose-canary_example :
    (s : State) × (some half ≡ some s)
    × (2000 ≤ 1000 + 10 * 1000000)
    × (0 < s.route.weight)
    × (is_attended s.active s.lease 2000 ≡ true)
choose-canary_example = choose-canary 2000 2000 routing chooses

-- The state is read again between the requests.
abbrev session : List Event
session = asks 2000 2000 ∷ asks 2001 2001 ∷ reads half 2002 ∷ asks 2003 2003 ∷ []

counts-session : counts session (set half 1000 fresh) ≡ (3, 1)
unfolding counts set choose status choose_track is_attended option_beq
counts-session = refl
