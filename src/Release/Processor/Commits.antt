-- ===== src/Release/Processor/Commits.antt =====
-- What the processor writes.
use ml_template.Prelude.{
  ◌≡◌, ℕ, String, ◌+◌, ◌⊎◌, find, ◌<◌, ◌≤◌, some, ◌*◌, ◌↔◌, arith, Option-cases, ◌^◌, suc, inl,
  refl, List, inr, zero, none, ◌∷◌, Bool-cases, ◌==◌, ==_iff, ◌∙◌, [], ap, ◌++◌, ◌≢◌, last_n,
}
use ml_template.Release.Processor.{
  failed_attempt, commit_outcome, apply_outcome, backoff, Outcome, has_event, replace_event,
  status_name, outcome_status,
}
use ml_template.Release.State.{audit, history}
use ml_template.Release.Types.{
  PendingItem, Time, State, resolution_blocked, Event, AuditEntry, text,
}
use ml_template.Release.Equality.{Event_eq, PendingItem_eq}

two_pow-pos : (n : ℕ) → 1 ≤ 2 ^ n
two_pow-pos zero = omega arith
two_pow-pos (suc n) = omega (arith, two_pow-pos n)

backoff_bounds : (n : ℕ) → (0 < backoff n) × (backoff n ≤ 900 * 1000000)
unfolding backoff
backoff_bounds n = omega (arith, two_pow-pos n)

-- An attempt that failed waits for at most fifteen minutes, counts, and blocks the item exactly when
-- the attempts are used up.
pub failed_attempt_lem :
    (max_attempts : ℕ) (item : PendingItem) (t : Time) (error : String)
    → let next = apply_outcome (failed_attempt max_attempts item t error) item in
      (next.attempts ≡ item.attempts + 1)
      × (t < next.next_attempt)
      × (next.next_attempt ≤ t + 900 * 1000000)
      × ((next.status ≡ resolution_blocked) ↔ (max_attempts ≤ item.attempts + 1))
      × (next.event ≡ item.event)
unfolding failed_attempt apply_outcome
failed_attempt_lem max_attempts item t error =
    let b = backoff_bounds (item.attempts + 1) in
    (refl, omega arith, omega arith, (ground arith, ground arith), refl)

-- The first item with the event, the items around it, and what replaces it.
find-split :
    (e : Event) (new : PendingItem) (items : List PendingItem) {old : PendingItem}
    → find (has_event e) items ≡ some old
    → (before : List PendingItem) × (after : List PendingItem) × (items ≡ before ++ old ∷ after)
      × (find (has_event e) before ≡ none)
      × (replace_event e new items ≡ before ++ new ∷ after)
unfolding replace_event
find-split e new [] h = cc
find-split e new (item ∷ rest) {old} h = elim (Bool-cases (has_event e item)) [
  | inl hit ↦
      let there : some item ≡ some old = rw hit at h in
      let same : item ≡ old = cc in ([], rest, ap (λ x. x ∷ rest) same, refl, rw hit refl)
  | inr miss ↦
      let (before, after, split, none_before, replaced) = find-split e new rest (rw miss at h) in
      (
        item ∷ before,
        after,
        ap (λ x. item ∷ x) split,
        rw (miss, none_before) refl,
        rw (miss, replaced) refl,
      )
]

-- A commit leaves the state as it is, and says so, if the first item with the event is not the one
-- that was read. Otherwise it applies the outcome to that item, adds an audit entry of its time with
-- the status that it says, and leaves the other items and everything else as it was.
pub commit_outcome_cases :
    (snapshot : PendingItem) (outcome : Outcome) (t : Time) (s : State)
    → let (said, next) = commit_outcome snapshot outcome t s in
      ((find (has_event snapshot.event) s.pending ≢ some snapshot)
        × (said ≡ "superseded")
        × (next ≡ s))
      ⊎ (before : List PendingItem) × (after : List PendingItem) × (entry : AuditEntry) × (s.pending
          ≡ before ++ snapshot ∷ after)
        × (find (has_event snapshot.event) before ≡ none)
        × (entry.time ≡ t)
        × (entry.reason ≡ said)
        × (next ≡ record s {
          pending = before ++ apply_outcome outcome snapshot ∷ after;
          audit = last_n history (s.audit ++ entry ∷ []);
        })
unfolding commit_outcome audit
commit_outcome_cases snapshot outcome t s =
    elim (Option-cases (find (has_event snapshot.event) s.pending)) [
      | inl gone ↦ rw (commit_outcome, gone) (inl (λ h. cc, refl, refl))
      | inr (current, there) ↦ elim (Bool-cases (current == snapshot)) [
        | inl same ↦
            let is : current ≡ snapshot = (==_iff current snapshot).0 same in
            let (before, after, split, none_before, replaced) =
              find-split snapshot.event (apply_outcome outcome current) s.pending there in
            let entry : AuditEntry = record {
              time = t;
              reason = status_name (outcome_status outcome);
              fields = ("model_version", text snapshot.event.model_version) ∷ [];
            } in
            rw (commit_outcome, there, same, replaced)
              (inr (
                before,
                after,
                entry,
                split ∙ ap (λ x. before ++ x ∷ after) is,
                none_before,
                refl,
                refl,
                ap
                    (λ x. record s {
                      pending = before ++ apply_outcome outcome x ∷ after;
                      audit = last_n history (s.audit ++ entry ∷ []);
                    })
                    is,
              ))
        | inr other ↦
            let differ : (some current ≡ some snapshot) → ⊥ = (λ h.
              let same : current ≡ snapshot = cc in
              let equal = (==_iff current snapshot).1 same in cc) in
            rw (commit_outcome, there, other) (inl (differ, refl, refl))
      ]
    ]
