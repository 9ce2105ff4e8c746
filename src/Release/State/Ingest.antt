-- ===== src/Release/State/Ingest.antt =====
-- What `ingest` does to the release state.
use ml_template.Prelude.{
  ◌≡◌, ok, String, ℕ, find, ◌⊎◌, Option-cases, none, inl, Bool-cases, ◌<◌, length, leb, inr, arith,
  ◌++◌, ◌∷◌, [], last_n, >>=-eq-ok, true, ok-injective, ◌≤◌, subst, List, length-append, ◌↔◌, ap,
  length-last_n-le, ◌≢◌, Bool, if◌then◌else◌, Result, false,
}
use ml_template.Release.State.{
  ingest_event, same_version, max_pending, new_item, history, ingest, within_bounds, audit,
  ingest_fields,
}
use ml_template.Release.Types.{State, Event, Json, Time, Field}
use ml_template.Release.Events.{identity, parse_event}
use ml_template.Release.Host.{Host}
use ml_template.Release.Authorization.{to_int}

-- An event that is not accepted leaves the state as it was.
pub record Accepted (s : State) (e : Event) (version : ℕ) (o : String) (next : State) : Type 0 where
  pub said : o ≡ "accepted"
  pub unknown : find (same_version e.model_version) s.identities ≡ none
  pub higher : s.highest_accepted < version
  pub room : length s.pending < max_pending
  pub made : next ≡ record s {
    pending = s.pending ++ new_item e ∷ [];
    highest_accepted = version;
    identities = last_n history (s.identities ++ identity e ∷ []);
  }

known_outcome :
    (b : Bool) {o : String} {s next : State}
    → ◌≡◌ {A = Result (String × State)}
        (ok (if b then "duplicate" else "identity_conflict", s))
        (ok (o, next))
    → (next ≡ s) × (o ≢ "accepted")
known_outcome true e = (cc, λ q. cc)
known_outcome false e = (cc, λ q. cc)

pub ingest_event_cases :
    (s : State) (e : Event) (version : ℕ) {o : String} {next : State}
    → ingest_event s e version ≡ ok (o, next)
    → ((next ≡ s) × (o ≢ "accepted")) ⊎ Accepted s e version o next
unfolding ingest_event
ingest_event_cases s e version {o} {next} h =
    elim (Option-cases (find (same_version e.model_version) s.identities)) [
      | inl unknown ↦
          let h' = (rw (ingest_event, unknown) at h) in
          elim (Bool-cases (leb version s.highest_accepted)) [
            | inl stale ↦ let h'' = (rw stale at h') in inl (cc, λ q. cc)
            | inr newer ↦
                let h'' = (rw newer at h') in
                elim (Bool-cases (leb max_pending (length s.pending))) [
                  | inl full ↦ let h3 = (rw full at h'') in cc
                  | inr room ↦
                      let h3 = (rw room at h'') in
                      inr (record {
                        said = cc;
                        unknown = unknown;
                        higher = ground arith;
                        room = ground arith;
                        made = cc;
                      })
                ]
          ]
      | inr (known, found) ↦ let h' = (rw (ingest_event, found) at h) in inl (known_outcome _ h')
    ]

-- What the outcome of `ingest` says of the whole state.
module _ (h : Host) (event : Json) (now : Time) (source : String) (s : State) where
  pub record Ingested (o : String) (next : State) : Type 0 where
    pub read : Event
    pub version : ℕ
    pub middle : State
    pub parsed : parse_event h event ≡ ok read
    pub numbered : to_int read.model_version ≡ ok version
    pub taken : ingest_event s read version ≡ ok (o, middle)
    pub audited : audit middle o now (ingest_fields read source) ≡ next

  pub ingest-Ingested :
      {o : String} {next : State} → ingest h event now source s ≡ ok (o, next) → Ingested o next
  unfolding ingest
  ingest-Ingested {o} {next} e =
      let (ev, parsed, e1) = >>=-eq-ok (parse_event h event) _ e in
      let (version, number, e2) = >>=-eq-ok (to_int ev.model_version) _ e1 in
      let ((o', middle), taken, e3) = >>=-eq-ok (ingest_event s ev version) _ e2 in
      let same : (o', audit middle o' now (ingest_fields ev source)) ≡ (o, next) =
        ok-injective e3 in
      record {
        read = ev;
        version = version;
        middle = middle;
        parsed = parsed;
        numbered = number;
        taken = subst (λ x. ingest_event s ev version ≡ ok (x, middle)) (ap (λ p. p.0) same) taken;
        audited =
            subst (λ x. audit middle x now (ingest_fields ev source) ≡ next) (ap (λ p. p.0) same)
              (ap (λ p. p.1) same);
      }

-- The five bounds, as inequalities.
abbrev Bounded : State → Type 0
Bounded s =
    (length s.pending ≤ max_pending)
    × (length s.audit ≤ history)
    × (length s.identities ≤ history)
    × (length s.processed ≤ history)
    × (length s.failed ≤ history)

module _ (h : Host) where
  bounds_iff : (s : State) → (within_bounds h s ≡ true) ↔ Bounded s
  unfolding within_bounds
  bounds_iff s = ground arith

  audit-Bounded :
      (s : State) (reason : String) (now : Time) (fields : List (String × Field))
      → Bounded s
      → Bounded (audit s reason now fields)
  unfolding audit
  audit-Bounded s reason now fields (p, a, i, d, f) = (p, length-last_n-le history _, i, d, f)

  accept-Bounded :
      (s : State) (e : Event) (version : ℕ) (o : String) (next : State)
      → Bounded s
      → Accepted s e version o next
      → Bounded next
  accept-Bounded s e version o next (p, a, i, d, f) k = rw k.made (
    let room = k.room in omega (arith, length-append s.pending (new_item e ∷ [])),
    a,
    length-last_n-le history _,
    d,
    f,
  )

  -- Ingesting keeps the collections within their bounds, and the highest accepted version never
  -- falls.
  pub ingest-within_bounds :
      (event : Json) (now : Time) (source : String) (s : State) {o : String} {next : State}
      → within_bounds h s ≡ true
      → ingest h event now source s ≡ ok (o, next)
      → (within_bounds h next ≡ true) × (s.highest_accepted ≤ next.highest_accepted)
  unfolding audit
  ingest-within_bounds event now source s {o} {next} bounded e =
      let i = ingest-Ingested h event now source s e in
      let b = (bounds_iff s).0 bounded in
      elim (ingest_event_cases s i.read i.version i.taken) [
        | inl (kept, other) ↦ (
          (bounds_iff next).1 (rw (← i.audited, kept) (audit-Bounded s o now _ b)),
          rw (← i.audited, kept) (omega arith),
        )
        | inr new ↦ (
          (bounds_iff next).1 (
              rw (← i.audited) (
                audit-Bounded i.middle o now _
                  (accept-Bounded s i.read i.version o i.middle b new))),
          rw (← i.audited, new.made) (let g = new.higher in omega arith),
        )
      ]
