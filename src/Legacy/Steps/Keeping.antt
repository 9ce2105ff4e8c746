-- ===== src/Legacy/Steps/Keeping.antt =====
-- Bounded states, and what the queue's own mutations keep of them.
use ml_template.Release.Types.{Time, Field}
use ml_template.Legacy.Types.{State, Release, Active}
use ml_template.Legacy.Candidates.{Parsed, candidate, refused}
use ml_template.Legacy.Queue.{
  holds, is_known, audit, ingest, ingest_candidate, retry, is_stale_rebuild, check_retry, requeued,
  max_pending, last_of, retry_matches,
}
use ml_template.Legacy.Queue.Distinct.{is_distinct, is_distinct-append, negated}
use ml_template.Legacy.Stages.{route, update_active}
use ml_template.Prelude.{
  List, Bool, ◌≤◌, ◌≡◌, true, ℕ, length, refl, Bool-cases, inl, inr, any, length-last_n-le, false,
  String, Option, ok, ◌∷◌, ◌==◌, ◌<◌, [], Option-cases, arith, ◌++◌, ℕ_eq, ok-injective,
  length-append, some, if◌then◌else◌, >>=-eq-ok, err, ap, busy, ◌⊎◌, Result, ltb, leb, check,
  is_none, not, or_raise, ltb→lt, check-ok, ◌||◌, String_eq,
}
use Prim.Native.String.{same}

abbrev pub weights : List ℕ
weights = 0 ∷ 10 ∷ 25 ∷ 50 ∷ 100 ∷ []

abbrev pub is_known_weight : ℕ → Bool
is_known_weight weight = any (λ w. w == weight) weights

-- At most twenty pending candidates, each with a digest of its own, at most a hundred entries of each
-- history, and a weight that the stages know.
pub record IsBounded (s : State) : Type 0 where
  pub queue : length s.pending ≤ 20
  pub distinct : is_distinct s.pending ≡ true
  pub audited : length s.audit ≤ 100
  pub processed : length s.processed ≤ 100
  pub failed : length s.failed ≤ 100
  pub weight : is_known_weight s.route.weight ≡ true

pub audit-IsBounded :
    (s : State) (reason : String) (t : Time) (fields : List (String × Field))
    → IsBounded s
    → IsBounded (audit s reason t fields)
unfolding audit
audit-IsBounded s reason t fields k = record {
  queue = k.queue;
  distinct = k.distinct;
  audited = length-last_n-le 100 _;
  processed = k.processed;
  failed = k.failed;
  weight = k.weight;
}

pub pending-IsBounded :
    (s : State) (ps : List Release)
    → IsBounded s
    → length ps ≤ 20
    → is_distinct ps ≡ true
    → IsBounded (record s { pending = ps })
pending-IsBounded s ps k h d = record {
  queue = h;
  distinct = d;
  audited = k.audited;
  processed = k.processed;
  failed = k.failed;
  weight = k.weight;
}

pub active-IsBounded :
    (s : State) (a : Option Active) → IsBounded s → IsBounded (record s { active = a })
active-IsBounded s a k = record {
  queue = k.queue;
  distinct = k.distinct;
  audited = k.audited;
  processed = k.processed;
  failed = k.failed;
  weight = k.weight;
}

pub route-IsBounded :
    (s : State) (w : ℕ) → is_known_weight w ≡ true → IsBounded s → IsBounded (route s w)
unfolding route
route-IsBounded s w h k = elim (Bool-cases (s.route.weight == w)) [
  | inl same ↦ rw same k
  | inr other ↦ rw other (record {
    queue = k.queue;
    distinct = k.distinct;
    audited = k.audited;
    processed = k.processed;
    failed = k.failed;
    weight = h;
  })
]

pub update_active-IsBounded :
    (f : Active → Active) (s : State) {s' : State}
    → IsBounded s
    → update_active f s ≡ ok s'
    → IsBounded s'
unfolding update_active
update_active-IsBounded f s k e = elim (Option-cases s.active) [
  | inl idle ↦ let bad = (rw (update_active, idle) at e) in cc
  | inr (a, busy_with) ↦
      rw (← ok-injective (rw (update_active, busy_with) at e)) (active-IsBounded s (some (f a)) k)
]

append-IsBounded :
    (s : State) (c : Release)
    → IsBounded s
    → length s.pending < 20
    → holds c.digest s.pending ≡ false
    → IsBounded (record s { pending = s.pending ++ c ∷ [] })
append-IsBounded s c k room fresh =
    pending-IsBounded s (s.pending ++ c ∷ []) k (omega (arith, length-append s.pending (c ∷ [])))
      (is_distinct-append s.pending c k.distinct fresh)

unknown-fresh : (s : State) (d : String) → is_known s d ≡ false → holds d s.pending ≡ false
unfolding is_known
unknown-fresh s d h = ground arith

-- the outcomes of `ingest_candidate`, by its tests
abbrev decided : Bool → Bool → Bool → Bool → State → State → Result (String × State)
decided known stale rebuild full s next =
    if known
    then ok ("duplicate", s)
    else if stale
    then ok ("stale", s)
    else if rebuild
    then ok ("stale_rebuild", s)
    else if full
    then err (busy "Pending release queue full")
    else ok ("accepted", next)

-- `ingest` adds a candidate only if none of its tests holds.
decision :
    (known stale rebuild full : Bool) (s next : State) {o : String} {n : State}
    → decided known stale rebuild full s next ≡ ok (o, n)
    → (s ≡ n) ⊎ ((known ≡ false) × (full ≡ false) × (next ≡ n))
decision true stale rebuild full s next e = inl (ap (λ p. p.1) (ok-injective e))
decision false true rebuild full s next e = inl (ap (λ p. p.1) (ok-injective e))
decision false false true full s next e = inl (ap (λ p. p.1) (ok-injective e))
decision false false false true s next e = cc
decision false false false false s next e = inr (refl, refl, ap (λ p. p.1) (ok-injective e))

ingest_candidate-IsBounded :
    (s : State) (c : Release) {o : String} {n : State}
    → IsBounded s
    → ingest_candidate s c ≡ ok (o, n)
    → IsBounded n
unfolding ingest_candidate
ingest_candidate-IsBounded s c {o} {n} k e =
    elim (decision (is_known s c.digest) (ltb c.version s.stable.version)
      (is_stale_rebuild c s.stable) (leb max_pending (length s.pending)) s
      (record s { pending = s.pending ++ c ∷ [] }) e) [
        | inl same ↦ rw (← same) k
        | inr (known, full, next) ↦
            let room : length s.pending < 20 = ground arith in
            rw (← next) (append-IsBounded s c k room (unknown-fresh s c.digest known))
      ]

pub ingest-IsBounded :
    (parsed : Parsed) (event_id : Option String) (t : Time) (s : State) {o : String} {s' : State}
    → IsBounded s
    → ingest parsed event_id t s ≡ ok (o, s')
    → IsBounded s'
unfolding ingest
ingest-IsBounded (candidate c) event_id t s k e =
    let ((outcome, n), went, e1) = >>=-eq-ok (ingest_candidate s c) _ e in
    rw (← ap (λ p. p.1) (ok-injective e1))
      (audit-IsBounded n outcome t _ (ingest_candidate-IsBounded s c k went))
ingest-IsBounded (refused reason) event_id t s k e =
    rw (← ap (λ p. p.1) (ok-injective e)) (audit-IsBounded s reason t _ k)

check_retry-room : (s : State) (c : Release) → check_retry s c ≡ ok tt → length s.pending < 20
unfolding check_retry
check_retry-room s c e =
    let (u, unprocessed, e1) =
      >>=-eq-ok
        (check (not (c.digest == s.stable.digest || any (λ d. d == c.digest) s.processed)) _) _ e in
    let (u', current, e2) =
      >>=-eq-ok (check (not (ltb c.version s.stable.version || is_stale_rebuild c s.stable)) _) _
        e1 in
    ltb→lt (length s.pending) 20 (check-ok _ _ e2)

pub retry-IsBounded :
    (digest : String) (version : ℕ) (operator note : String) (t : Time) (s : State) {c : Release}
    {s' : State}
    → IsBounded s
    → retry digest version operator note t s ≡ ok (c, s')
    → IsBounded s'
unfolding retry requeued
retry-IsBounded digest version operator note t s k e =
    let (u1, idle, e1) = >>=-eq-ok (check (is_none s.active) _) _ e in
    let (u2, fresh, e2) = >>=-eq-ok (check (not (holds digest s.pending)) _) _ e1 in
    let (previous, found, e3) =
      >>=-eq-ok (or_raise (last_of (retry_matches digest version s)) _) _ e2 in
    let c' = requeued digest version previous in
    let (u4, allowed, e4) = >>=-eq-ok (check_retry s c') _ e3 in
    rw (← ap (λ p. p.1) (ok-injective e4)) (
      audit-IsBounded _ "operator_retry" t _
        (append-IsBounded s c' k (check_retry-room s c' allowed) (negated _ (check-ok _ _ fresh))))
