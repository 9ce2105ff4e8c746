-- ===== src/Release/Inbox/Delivery.antt =====
-- When a message leaves the queue.
use ml_template.Release.Store.{ingest_now, enqueue_text, enqueue_event, retries}
use ml_template.Prelude.Actions.{bind-ok, lift, return, lift-ok}
use ml_template.Prelude.{
  ◌≡◌, ok, String, ◌≢◌, Bool-cases, ◌==◌, inl, inr, String_eq, ok-injective, ap, ◌∙◌, ==_iff,
}
use ml_template.Backend.{Backend, IsCas, now}
use ml_template.Release.Types.{State, Event, Json}
use ml_template.Release.Host.{Host}
use ml_template.Prelude.Actions.{Action}
use ml_template.Release.Inbox.{handle_message, Message, acknowledge}
use ml_template.Release.Events.{parse_body, event_json}
use ml_template.Release.Store.Linear.{Committed, IsReading, update-Committed}

module _ {b : Backend State} (c : IsCas b) (h : Host)
    (delete_message : String → Action b.World (Unit {0})) where
  pub ingest_now-IsReading :
      (event : Json) (source : String) → IsReading c h (ingest_now b h event source)
  unfolding ingest_now now
  ingest_now-IsReading event source s w = c.clock_later w

  pub enqueue_text-Committed :
      (body source : String) (w : b.World) {o : String} {w' : b.World}
      → enqueue_text b h body source w ≡ (ok o, w')
      → (e : Event) × (parse_body h body ≡ ok e)
        × Committed c h (ingest_now b h (event_json e) source) o w w'
  unfolding enqueue_text enqueue_event
  enqueue_text-Committed body source w e =
      let (ev, v, ran, e1) = bind-ok (lift (parse_body h body)) _ w e in
      let (parsed, same) = lift-ok (parse_body h body) w ran in
      (
        ev,
        parsed,
        update-Committed c h (ingest_now b h (event_json ev) source)
            (ingest_now-IsReading (event_json ev) source) retries w (rw (← same) at e1),
      )

  acknowledge-ok :
      (m : Message) (r : String) (w : b.World) {o : String} {w' : b.World}
      → acknowledge b h delete_message m r w ≡ (ok o, w')
      → (r ≡ o) × (delete_message m.receipt w ≡ (ok tt, w')) × (o ≢ "identity_conflict")
  unfolding acknowledge
  acknowledge-ok m r w {o} {w'} e = elim (Bool-cases (r == "identity_conflict")) [
    | inl conflicting ↦ let bad = (rw (acknowledge, conflicting) at e) in cc
    | inr fine ↦
        let (u, v, gone, e1) =
          bind-ok (delete_message m.receipt) (λ x. return r) w (rw (acknowledge, fine) at e) in
        let said : r ≡ o = ok-injective (ap (λ p. p.0) e1) in
        (
          said,
          gone ∙ ap (λ x. (ok tt, x)) (ap (λ p. p.1) e1),
          λ q. let bad = (==_iff r "identity_conflict").1 (said ∙ q) in cc,
        )
  ]

  -- A message that was handled was a valid promotion, its outcome was committed to the store before
  -- the message was deleted, and the outcome is no identity conflict.
  pub handle_message-Committed :
      (m : Message) (w : b.World) {o : String} {w' : b.World}
      → handle_message b h delete_message m w ≡ (ok o, w')
      → (e : Event) × (v : b.World) × (parse_body h m.body ≡ ok e)
        × Committed c h (ingest_now b h (event_json e) "sqs") o w v
        × (delete_message m.receipt v ≡ (ok tt, w'))
        × (o ≢ "identity_conflict")
  unfolding handle_message
  handle_message-Committed m w e =
      let (r, v, queued, e1) = bind-ok (enqueue_text b h m.body "sqs") _ w e in
      let (ev, parsed, committed) = enqueue_text-Committed m.body "sqs" w queued in
      let (same, gone, fine) = acknowledge-ok m r v e1 in
      (ev, v, parsed, rw same at committed, gone, fine)
