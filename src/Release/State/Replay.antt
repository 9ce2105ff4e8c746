-- ===== src/Release/State/Replay.antt =====
-- An event that arrives again.
use ml_template.Release.State.Ingest.{ingest-Ingested, ingest_event_cases}
use ml_template.Prelude.{
  ◌≡◌, ok, find, String, arith, inl, inr, refl, some, find-last_n, ==_iff, String_eq,
}
use ml_template.Release.Host.{Host}
use ml_template.Release.Types.{Json, Time, State, Event}
use ml_template.Release.State.{ingest, ingest_event, same_version, audit, ingest_fields, history}
use ml_template.Release.Events.{identity, parse_event}

module _ (h : Host) (event : Json) (now : Time) (source : String) (s : State) where
  -- Once an event is accepted, the same event arriving next is a duplicate, whatever its source and
  -- time: the state gets an audit entry and does not change otherwise.
  pub ingest-again :
      (t : Time) (other : String) {next : State}
      → ingest h event now source s ≡ ok ("accepted", next)
      → (e : Event) × (parse_event h event ≡ ok e)
        × (ingest h event t other next
            ≡ ok ("duplicate", audit next "duplicate" t (ingest_fields e other)))
  unfolding ingest ingest_event same_version identity audit
  ingest-again t other {next} e =
      let i = ingest-Ingested h event now source s e in
      elim (ingest_event_cases s i.read i.version i.taken) [
        | inl (kept, not_accepted) ↦ absurd (not_accepted refl)
        | inr new ↦
            let known : find (same_version i.read.model_version) next.identities
                ≡ some (identity i.read) =
              rw (← i.audited, new.made)
                (find-last_n (same_version i.read.model_version) history s.identities
                  (identity i.read) (omega arith) new.unknown
                  ((==_iff i.read.model_version i.read.model_version).1 refl)) in
            (
              i.read,
              i.parsed,
              rw
                  (
                    ingest,
                    i.parsed,
                    i.numbered,
                    ingest_event,
                    known,
                    (==_iff (identity i.read) (identity i.read)).1 refl,
                  )
                  refl,
            )
      ]
