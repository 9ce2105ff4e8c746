-- ===== src/Legacy/Watcher/Delivery.antt =====
-- When a message of the registry leaves the queue.
use ml_template.Prelude.Actions.{bind-ok, lift-ok, lift, return}
use ml_template.Prelude.{◌≡◌, ok, String, Option, ap, ok-injective, ◌∙◌}
use ml_template.Backend.{Backend, IsCas, now}
use ml_template.Legacy.Types.{State, Library}
use ml_template.Legacy.Candidates.{Parsed, event_candidate}
use ml_template.Legacy.Store.{enqueue, ingest_now, retries}
use ml_template.Legacy.Store.Linear.{Committed, IsReading, updated-Committed}
use ml_template.Legacy.Watcher.{Services, Message, handle_message}

module _ {b : Backend State} (c : IsCas b) (lib : Library) (services : Services b.World) where
  ingest_now-IsReading :
      (parsed : Parsed) (event_id : Option String)
      → IsReading c lib (ingest_now b lib parsed event_id)
  unfolding ingest_now now
  ingest_now-IsReading parsed event_id s w = c.clock_later w

  -- A message that was handled, refused ones included, was parsed, its outcome was committed to the
  -- store, and only then was the message deleted.
  pub handled-Committed :
      (m : Message) (w : b.World) {outcome : String} {w' : b.World}
      → handle_message b lib services m w ≡ (ok outcome, w')
      → (parsed : Parsed) × (v : b.World) × (event_candidate lib m.body ≡ ok parsed)
        × Committed c lib (ingest_now b lib parsed m.message_id) outcome w v
        × (services.delete_message m.receipt v ≡ (ok tt, w'))
  unfolding handle_message enqueue
  handled-Committed m w e =
      let (parsed, w1, read, e1) = bind-ok (lift (event_candidate lib m.body)) _ w e in
      let (decided, same) = lift-ok (event_candidate lib m.body) w read in
      let (outcome, v, queued, e2) = bind-ok (enqueue b lib parsed m.message_id) _ w1 e1 in
      let (u, v', gone, e3) =
        bind-ok (services.delete_message m.receipt) (λ x. return outcome) v e2 in
      let committed =
        updated-Committed c lib (ingest_now b lib parsed m.message_id)
          (ingest_now-IsReading parsed m.message_id) retries w (rw (← same) at queued) in
      (
        parsed,
        v,
        decided,
        rw (ok-injective (ap (λ p. p.0) e3)) at committed,
        gone ∙ ap (λ x. (ok tt, x)) (ap (λ p. p.1) e3),
      )
