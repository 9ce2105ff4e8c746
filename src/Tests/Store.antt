-- ===== src/Tests/Store.antt =====
-- The store in memory: a lease is taken, a message is handled, a tick runs.
use ml_template.Prelude.{
  ◌≡◌, ok, ◌*◌, some, true, ◌∷◌, [], String, refl, none, inl, ◌≢◌, last_n, inr,
}
use ml_template.Release.Tick.{tick, tick_active}
use ml_template.Samples.{Policy, Metrics, at}
use ml_template.Release.Controller.{
  Effects, acquire, claim_lease, guard, guarded, change, claim, eligible, claim_newest,
  clocked_twice,
}
use ml_template.Release.Tick.Keeping.{Quiet}
use ml_template.Release.Types.{State, PendingItem, Event, accepted, text}
use ml_template.Backend.Memory.{numbered, Memory, memory_IsCas, memory_Peers, memory, memory_Peers}
use ml_template.Tests.Data.{
  approved_state, host, holding, empty_state, waiting, candidate, promotion_json,
}
use ml_template.Release.Store.{update, ingest_now, enqueue_text, enqueue_event, retries, read}
use ml_template.Prelude.Actions.{return, Action}
use ml_template.Release.Discipline.{Disciplined}
use ml_template.Release.Stages.{
  is_leased, take_lease, holds_lease, claim_candidate, new_release, above, newest, pair_version,
  route,
}
use ml_template.Backend.Keeping.{Keeping-return}
use ml_template.Tests.Opening.{state_checks}
use ml_template.Backend.{now}
use ml_template.Release.Store.Linear.{Committed, update-Committed}
use ml_template.Release.Inbox.{handle_message}
use ml_template.Backend.History.{Later}
use ml_template.Backend.Chains.{At, Chain, At-Later}
use ml_template.Release.Tick.Discipline.{tick-revisions, tick-Disciplined}
use ml_template.Release.State.{ingest, ingest_event, audit, new_item, same_version}
use ml_template.Release.Events.{
  parse_body, event_json, parse_event, optional_json, get, is_text, is_number, as_text,
}
use ml_template.Release.Inbox.Delivery.{ingest_now-IsReading, handle_message-Committed}
use ml_template.Release.Authorization.{claimable}

abbrev pub policy : Policy
policy = record {
  minimum = 1;
  dwell = 35 * 1000000;
  timeout = 300 * 1000000;
  error_limit = 50000;
  p95_limit = 100000;
}

abbrev pub metrics : Metrics
metrics = record {
  up = at 1000000;
  age = at 2000000;
  traffic = at 9000000;
  success = at 9000000;
  errors = at 0;
  p95 = at 30000;
  stable_errors = at 0;
}

abbrev effects : Effects (Memory State)
effects = record {
  ensure = λ lane p fp. return true;
  is_ready = λ lane p fp. return true;
  router = return (record { ready = true; weight = some 0; revision = some 4 });
  metrics = return metrics;
}

effects-Quiet : Quiet {b = memory State} memory_IsCas Disciplined effects
effects-Quiet = record {
  ensures = λ lane p fp. Keeping-return true;
  readies = λ lane p fp. Keeping-return true;
  routes = Keeping-return _;
  measures = Keeping-return metrics;
}

-- The lease is taken at 2101 seconds.
abbrev leased : State
leased = record approved_state { lease = some (record { owner = "a"; until = 2161 * 1000000 }) }

acquires :
    acquire (memory State) host effects policy "a" (holding approved_state)
    ≡ (ok true, record { states = leased ∷ approved_state ∷ []; time = 2102 * 1000000 })
unfolding acquire update claim_lease is_leased take_lease now state_checks
acquires = refl

abbrev queued : PendingItem
queued = record waiting { status = accepted; attempts = 0; error_type = none }

abbrev audited : State
audited = record empty_state {
  highest_accepted = 2;
  pending = queued ∷ [];
  identities = candidate.event ∷ [];
  audit =
      (record {
        time = 2100 * 1000000;
        reason = "accepted";
        fields = ("model_version", text "2") ∷ ("source", text "sqs") ∷ [];
      })
      ∷ [];
}

abbrev after : Memory State
after = record { states = audited ∷ empty_state ∷ []; time = 2101 * 1000000 }

accepts :
    update
      (memory State)
      host
      retries
      (ingest_now (memory State) host promotion_json "sqs")
      (holding empty_state)
    ≡ (ok "accepted", after)
unfolding update ingest_now ingest ingest_event parse_event parse_body event_json optional_json get
    is_text is_number as_text now audit new_item same_version last_n state_checks
accepts = refl

update-Committed_example :
    Committed memory_IsCas host
      (ingest_now (memory State) host promotion_json "sqs")
      "accepted"
      (holding empty_state)
      after
update-Committed_example =
    update-Committed memory_IsCas host (ingest_now (memory State) host promotion_json "sqs")
      (ingest_now-IsReading memory_IsCas host (λ r w. (ok tt, w)) promotion_json "sqs") retries
      (holding empty_state) accepts

abbrev delete : String → Action (Memory State) (Unit {0})
delete receipt = return tt

handles :
    handle_message
      (memory State)
      host
      delete
      (record { body = "{}"; receipt = "r" })
      (holding empty_state)
    ≡ (ok "accepted", after)
unfolding handle_message enqueue_text enqueue_event update ingest_now ingest ingest_event
    parse_event parse_body event_json optional_json get is_text is_number as_text now audit new_item
    same_version last_n state_checks
handles = refl

handle_message-Committed_example :
    (e : Event) × (v : Memory State) × (parse_body host "{}" ≡ ok e)
    × Committed memory_IsCas host
        (ingest_now (memory State) host (event_json e) "sqs")
        "accepted"
        (holding empty_state)
        v
    × (delete "r" v ≡ (ok tt, after))
    × (◌≢◌ {A = String} "accepted" "identity_conflict")
handle_message-Committed_example =
    handle_message-Committed memory_IsCas host delete (record { body = "{}"; receipt = "r" })
      (holding empty_state) handles

tick-Disciplined_example :
    Later
      (numbered (approved_state ∷ []))
      (numbered (tick (memory State) host effects policy "a" (holding approved_state)).1.states)
    × Chain Disciplined
        (numbered (tick (memory State) host effects policy "a" (holding approved_state)).1.states)
tick-Disciplined_example =
    tick-Disciplined (memory_Peers Disciplined) host effects effects-Quiet policy "a"
      (holding approved_state) tt

first_version :
    At 0 approved_state
      (numbered (tick (memory State) host effects policy "a" (holding approved_state)).1.states)
first_version = At-Later 0 approved_state (inl (refl, refl)) tick-Disciplined_example.0

second_version :
    At 1 leased
      (numbered (tick (memory State) host effects policy "a" (holding approved_state)).1.states)
unfolding tick tick_active acquire update claim_lease is_leased take_lease now guard read guarded
    change holds_lease claim eligible claim_newest clocked_twice claimable claim_candidate
    new_release above newest pair_version audit route last_n state_checks
second_version = inr (inl (refl, refl))

tick-revisions_example : approved_state.route.weight ≡ leased.route.weight
tick-revisions_example =
    tick-revisions (memory_Peers Disciplined) host effects effects-Quiet policy "a"
      (holding approved_state) 0 1 approved_state leased tt first_version second_version refl
