-- ===== src/Tests/State.antt =====
-- Events, ingestion and the stages of a release, at concrete states.
use ml_template.Prelude.{
  ◌≡◌, refl, some, none, ok, ◌≤◌, true, ◌^◌, ◌*◌, ltb, ◌-◌, arith, ◌+◌, ◌∷◌, [], false, last_n, ◌≢◌,
  String, ==_iff, ◌⊎◌, String_eq,
}
use ml_template.Release.Events.{
  parse_event, event_json, optional_json, get, is_text, is_number, as_text,
}
use ml_template.Tests.Opening.{pair_checks, state_checks}
use ml_template.Release.Types.{
  State, Event, Lease, accepted, text, Active, AuditEntry, ramp, a_pair, number, finalizing,
  preparing,
}
use ml_template.Release.State.{
  ingest, within_bounds, ingest_event, audit, ingest_fields, new_item, same_version,
}
use ml_template.Release.Stages.{
  holds_lease, is_leased, take_lease, second, claim_candidate, promote_stage, new_release,
  next_weight, above, route, update_active,
}
use ml_template.Release.Stages.Leases.{holds_lease_unique, holds_lease-excludes, take_lease_lem}
use ml_template.Tests.Data.{
  host, empty_state, promotion, waiting, promotion_json, candidate, approved_state, new_pair,
  digest, old_pair, approved_item, approval,
}
use ml_template.Release.Pairs.{numeric_version}
use ml_template.Release.State.Ingest.{ingest-within_bounds}
use ml_template.Release.Events.RoundTrip.{parse_event-event_json}
use ml_template.Release.Pairs.Bounds.{numeric_version_bounds}
use ml_template.Release.State.Replay.{ingest-again}
use ml_template.Release.Stages.Recovery.{promote_stage-Order}

parses : parse_event host promotion_json ≡ ok promotion
unfolding parse_event event_json optional_json get is_text is_number as_text pair_checks
parses = refl

parse_event-event_json_example : parse_event host (event_json promotion) ≡ ok promotion
parse_event-event_json_example = parse_event-event_json host promotion_json parses

version_42 : numeric_version "42" ≡ ok 42
unfolding pair_checks
version_42 = refl

numeric_version_bounds_example : (1 ≤ 42) × (42 ≤ 2 ^ 31 - 1)
numeric_version_bounds_example = numeric_version_bounds "42" version_42

abbrev accepted_state : State
accepted_state = record empty_state {
  highest_accepted = 2;
  pending = (record waiting { status = accepted; attempts = 0; error_type = none }) ∷ [];
  identities = candidate.event ∷ [];
  audit =
      (record {
        time = 5;
        reason = "accepted";
        fields = ("model_version", text "2") ∷ ("source", text "sqs") ∷ [];
      })
      ∷ [];
}

ingests : ingest host promotion_json 5 "sqs" empty_state ≡ ok ("accepted", accepted_state)
unfolding ingest ingest_event parse_event event_json optional_json get is_text is_number as_text
    audit new_item same_version last_n state_checks
ingests = refl

within : within_bounds host empty_state ≡ true
unfolding within_bounds
within = refl

ingest-within_bounds_example : (within_bounds host accepted_state ≡ true) × (1 ≤ 2)
ingest-within_bounds_example =
    ingest-within_bounds host promotion_json 5 "sqs" empty_state within ingests

ingest-again_example :
    (e : Event) × (parse_event host promotion_json ≡ ok e)
    × (ingest host promotion_json 9 "champion" accepted_state
        ≡ ok ("duplicate", audit accepted_state "duplicate" 9 (ingest_fields e "champion")))
ingest-again_example = ingest-again host promotion_json 5 "sqs" empty_state 9 "champion" ingests

abbrev minute : Lease
minute = record { owner = "a"; until = 60 * 1000000 }

held_at_0 : holds_lease "a" 0 (some minute) ≡ true
unfolding holds_lease
held_at_0 = refl

held_at_5 : holds_lease "a" 5 (some minute) ≡ true
unfolding holds_lease
held_at_5 = refl

false_not_true : false ≡ true → ⊥
false_not_true e = cc

a_not_b : ◌≢◌ {A = String} "a" "b"
a_not_b q = false_not_true ((==_iff "a" "b").1 q)

holds_lease_unique_example : ◌≡◌ {A = String} "a" "a"
holds_lease_unique_example = holds_lease_unique "a" "a" 0 5 (some minute) held_at_0 held_at_5

take_lease_lem_example :
    (holds_lease "a" 7 (take_lease "a" 0 empty_state).lease
      ≡ ltb (7 + 10 * second) (0 + 60 * second))
    × (is_leased "b" 7 (take_lease "a" 0 empty_state).lease ≡ ltb 7 (0 + 60 * second))
    × (is_leased "a" 7 (take_lease "a" 0 empty_state).lease ≡ false)
take_lease_lem_example = take_lease_lem "a" "b" 0 7 empty_state a_not_b

holds_lease-excludes_example : is_leased "b" 9 (some minute) ≡ true
holds_lease-excludes_example =
    holds_lease-excludes "a" "b" 0 9 (some minute) a_not_b (omega arith) held_at_0

-- A candidate is claimed at 2100 seconds and rolled back.
abbrev pub released : Active
released = record {
  pair = new_pair;
  fingerprint = digest;
  phase = preparing;
  previous_stable = old_pair;
  previous_fingerprint = digest;
  deadline = 2400 * 1000000;
  stage_since = none;
  authorization = some approval;
  reason = none;
}

abbrev pub started : AuditEntry
started = record {
  time = 2101 * 1000000;
  reason = "release_started";
  fields = ("pair", a_pair new_pair) ∷ ("authorization_id", text digest) ∷ [];
}

abbrev pub claimed : State
claimed = record approved_state { pending = []; active = some released; audit = started ∷ [] }

pub claims_it :
    claim_candidate old_pair approved_item
      (300 * 1000000)
      (2100 * 1000000)
      (2101 * 1000000)
      approved_state
    ≡ ok claimed
unfolding claim_candidate new_release above route audit last_n state_checks
claims_it = refl

abbrev ramping : State
ramping = record claimed {
  active = some (record released { phase = ramp });
  route = record { weight = 50; revision = 9 };
}

abbrev at_full : State
at_full = record ramping {
  active = some (record released { phase = ramp; deadline = 2700 * 1000000 });
  route = record { weight = 100; revision = 10 };
  audit =
      started
      ∷ (record {
        time = 2401 * 1000000;
        reason = "stage_promoted";
        fields = ("previous_weight", number 50) ∷ [];
      })
      ∷ [];
}

promotes_it :
    promote_stage 50 (300 * 1000000) (2400 * 1000000) (2401 * 1000000) ramping ≡ ok at_full
unfolding promote_stage next_weight update_active route audit last_n
promotes_it = refl

promote_stage-Order_example :
    ((ramping.route.weight ≡ 10) × (at_full.route.weight ≡ 25)
        ⊎ (ramping.route.weight ≡ 25) × (at_full.route.weight ≡ 50)
        ⊎ (ramping.route.weight ≡ 50) × (at_full.route.weight ≡ 100))
      × (at_full.active
          ≡ some (record released { phase = ramp; stage_since = none; deadline = 2700 * 1000000 }))
    ⊎ (ramping.route.weight ≡ 100)
      × (at_full.route ≡ ramping.route)
      × (at_full.active ≡ some (record released { phase = finalizing; deadline = 2700 * 1000000 }))
promote_stage-Order_example =
    promote_stage-Order (300 * 1000000) (2400 * 1000000) (2401 * 1000000) ramping refl promotes_it
