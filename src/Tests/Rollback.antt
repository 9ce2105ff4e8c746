-- ===== src/Tests/Rollback.antt =====
-- A candidate that is rolled back while it has traffic.
use ml_template.Prelude.{◌≡◌, ok, some, none, refl, ◌∷◌, [], last_n, ◌+◌, ◌*◌}
use ml_template.Release.Types.{State, Active, ramp, rollback, text}
use ml_template.Release.State.{audit, history}
use ml_template.Release.Stages.{
  arm, request_rollback, start_rollback, restored, route, update_active,
}
use ml_template.Release.Stages.Recovery.{rollback-restores, at_once, onward, arms}
use ml_template.Tests.Data.{approved_state, approved_item, old_pair, new_pair, digest}
use ml_template.Tests.State.{claimed, claims_it, started, released}

abbrev armed : State
armed = record claimed {
  active = some (record released { phase = ramp; deadline = 2450 * 1000000 });
  route = record { weight = 10; revision = claimed.route.revision + 1 };
}

arms_it : arm (300 * 1000000) (2150 * 1000000) claimed ≡ ok armed
unfolding arm update_active route
arms_it = refl

abbrev failing : Active
failing = record released {
  phase = rollback;
  deadline = 2500 * 1000000;
  reason = some "backend_unavailable";
}

abbrev rolled : State
rolled = record armed {
  active = some failing;
  route = record { weight = 0; revision = armed.route.revision + 1 };
  audit =
      started
      ∷ (record {
        time = 2201 * 1000000;
        reason = "rollback_requested";
        fields = ("detail", text "backend_unavailable") ∷ [];
      })
      ∷ [];
}

rolls_back_it :
    request_rollback "backend_unavailable" (300 * 1000000) (2200 * 1000000) (2201 * 1000000) armed
    ≡ ok rolled
unfolding request_rollback start_rollback route audit last_n
rolls_back_it = refl

rollback-restores_example :
    (rolled.route.weight ≡ 0)
    × (failing.phase ≡ rollback)
    × ((restored failing (2300 * 1000000) rolled).stable ≡ some old_pair)
    × ((restored failing (2300 * 1000000) rolled).stable_fingerprint ≡ some digest)
    × ((restored failing (2300 * 1000000) rolled).active ≡ none)
    × (approved_item.pair ≡ some failing.pair)
    × ((restored failing (2300 * 1000000) rolled).failed
        ≡ last_n history (record { pair = new_pair; reason = some "backend_unavailable" } ∷ []))
rollback-restores_example =
    rollback-restores old_pair approved_item (300 * 1000000) (2100 * 1000000) (2101 * 1000000)
      (2200 * 1000000) (2201 * 1000000) (2300 * 1000000) "backend_unavailable" approved_state armed
      claims_it (onward at_once (arms (2150 * 1000000) arms_it)) rolls_back_it refl
