-- ===== src/Release/Store.antt =====
-- `Store` of control_plane/state_v2.py over a backend that compares and swaps, and `enqueue`.
pub mod Linear
pub mod Keeping
use ml_template.Prelude.Actions.{Action, return, raise, lift, ◌>>=◌, ◌>>◌}
use ml_template.Release.Types.{State, Json, Event}
use ml_template.Prelude.{ℕ, Result, String, busy, ok, err, suc, conflict, zero}
use ml_template.Backend.{Backend, now}
use ml_template.Release.Host.{Host}
use ml_template.Release.State.{validate, ingest}
use ml_template.Release.Events.{parse_event, event_json, parse_body}

abbrev pub retries : ℕ
retries = 8

module _ (b : Backend State) where
  open b use {World}

  -- A function that changes a snapshot. It may look at the clock.
  abbrev pub Mutation : Type 0 → Type 0
  Mutation A = State → Action World (A × State)

  -- How a round of the loop in `update` ends, with the rounds that follow a conflict.
  settle : {A : Type 0} → A → Action World A → Result (Unit {0}) → Action World A
  settle a retry (ok _) = return a
  settle a retry (err conflict) = retry
  settle a retry (err e) = raise e

  attempt : {A : Type 0} → ℕ → A → State → Action World A → Action World A
  unfolding settle
  attempt revision a next retry w =
      let (r, w') = b.write_state revision next w in settle a retry r w'

  module _ (h : Host) where
    -- `Store.read`
    unfoldable pub read : Action World State
    read = do (revision, s) ← b.read_state; lift (validate h s); return s

    -- One round: the snapshot, its validation before and after the mutation, and the write.
    round : {A : Type 0} → Mutation A → Action World A → Action World A
    unfolding attempt
    round mutate retry = do
      (revision, original) ← b.read_state
      lift (validate h original)
      (a, next) ← mutate original
      lift (validate h next)
      attempt revision a next retry

    -- `Store.update` with the rounds that are left
    unfoldable pub update : {A : Type 0} → ℕ → Mutation A → Action World A
    unfolding round
    update zero mutate = raise (busy "CAS retries exhausted")
    update (suc n) mutate = round mutate (update n mutate)

    unfoldable pub ingest_now : Json → String → Mutation String
    ingest_now event source s = do t ← now b; lift (ingest h event t source s)

    -- `enqueue`, once its first `parse_event` has read the event
    unfoldable pub enqueue_event : String → Event → Action World String
    unfolding ingest_now
    enqueue_event source event = update retries (ingest_now (event_json event) source)

    -- `enqueue` of a decoded object, and of the text of a message
    unfoldable pub enqueue : Json → String → Action World String
    enqueue body source = do event ← lift (parse_event h body); enqueue_event source event

    unfoldable pub enqueue_text : String → String → Action World String
    enqueue_text body source = do event ← lift (parse_body h body); enqueue_event source event
