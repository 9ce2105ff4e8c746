-- ===== src/Release/Inbox.antt =====
-- How promotions arrive: control_plane/consumer_v2.py (the queue) and reconciliation_v2.py (the
-- champion pointer), both through `enqueue`.
pub mod Delivery
use ml_template.Prelude.Actions.{Action, return, raise, lift, catch, ◌>>=◌, ◌>>◌}
use ml_template.Prelude.{
  String_eq, ℕ_eq, String, if◌then◌else◌, List, Option, ◌∷◌, ◌==◌, value_error, ltb, [], none, some,
  ◌+◌,
}
use ml_template.Release.Types.{Time, State, Json}
use ml_template.Backend.{Backend, now}
use ml_template.Release.Host.{Host}
use ml_template.Release.Store.{enqueue_text, enqueue}
use ml_template.Release.Events.{parse_event, event_json}

pub record Message : Type 0 where
  pub body : String
  pub receipt : String

module _ (b : Backend State) (h : Host) where
  module _ (delete_message : String → Action b.World (Unit {0})) where
    acknowledge : Message → String → Action b.World String
    acknowledge message result =
        if result == "identity_conflict"
        then raise (value_error result)
        else (do delete_message message.receipt; return result)

    -- `handle_message`; the log entries are output only
    unfoldable pub handle_message : Message → Action b.World String
    unfolding acknowledge
    handle_message message = do
      result ← enqueue_text b h message.body "sqs"
      acknowledge message result

    -- `poll_once`, on the messages that were received
    unfoldable pub handle_messages : List Message → Action b.World (Unit {0})
    handle_messages [] = return tt
    handle_messages (m ∷ rest) = do handle_message m; handle_messages rest

  module _ (pointer : Action b.World Json) (interval : Time) where
    reconcile : Action b.World String
    reconcile = do
      raw ← pointer
      event ← lift (parse_event h raw)
      enqueue b h (event_json event) "champion"

    -- `Reconciler.tick` at the time of the next attempt; the new one comes back with the outcome
    unfoldable pub reconciler_tick : Time → Action b.World (Option String × Time)
    unfolding reconcile
    reconciler_tick next_attempt = do
      t ← now b
      (if ltb t next_attempt then return (none, next_attempt) else (do
        t' ← now b
        outcome ← catch reconcile (λ _. return "blocked")
        return (some outcome, t' + interval)))
