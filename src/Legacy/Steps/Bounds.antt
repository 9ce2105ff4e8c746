-- ===== src/Legacy/Steps/Bounds.antt =====
-- The sizes of the queue and of the collections, step by step.
use ml_template.Release.Types.{Time}
use ml_template.Legacy.Types.{State, Release, Active}
use ml_template.Legacy.Queue.{initial_state}
use ml_template.Legacy.Queue.Distinct.{
  is_distinct, Sub, Sub-trans, filter-Sub, Sub-length, Sub-is_distinct,
}
use ml_template.Legacy.Stages.{
  restored, route, update_active, start_release, start_rollback, arm, advance_stage, finalize,
  complete, complete_rollback, take_lease, is_finalizing, is_newer, newest, remove,
}
use ml_template.Prelude.{
  List, ◌≡◌, true, ℕ, refl, Bool-cases, inl, inr, length-last_n-le, String, ok, ◌∷◌, ◌==◌, [],
  arith, ℕ_eq, ok-injective, >>=-eq-ok, or_raise, filter, key_error, String_eq,
}
use ml_template.Legacy.Steps.{
  retried, Step, Reachable, ingested, unchanged, leased, after, rolling_back, initial, claimed,
  updated, armed, advanced, finalized, completed, restored_stable, rolled_back, nothing_newer,
  routed_away,
}
use ml_template.Release.Stages.{next_weight}
use ml_template.Legacy.Stages.Removal.{remove-Sub}
use ml_template.Legacy.Steps.Keeping.{
  IsBounded, is_known_weight, audit-IsBounded, pending-IsBounded, active-IsBounded, route-IsBounded,
  update_active-IsBounded, ingest-IsBounded, retry-IsBounded,
}

-- A candidate that is claimed leaves the queue.
claimed-IsBounded :
    (s : State) (c : Release) (rest : List Release) (deadline t : Time)
    → filter (λ x. is_newer s.stable x) s.pending ≡ c ∷ rest
    → IsBounded s
    → IsBounded (start_release (c ∷ rest) (newest c rest) deadline t s)
unfolding start_release
claimed-IsBounded s c rest deadline t e k =
    let left : Sub (remove (newest c rest) (c ∷ rest)) s.pending =
      Sub-trans (remove-Sub (newest c rest) (c ∷ rest))
        (rw e at (filter-Sub (λ x. is_newer s.stable x) s.pending)) in
    let fewer = Sub-length left in
    let smaller =
      pending-IsBounded s (remove (newest c rest) (c ∷ rest)) k (omega (arith, k.queue, fewer))
        (Sub-is_distinct left k.distinct) in
    audit-IsBounded _ "release_started" t _
      (route-IsBounded _ 0 refl (active-IsBounded _ _ smaller))

start_rollback-IsBounded :
    (reason : String) (deadline t : Time) (a : Active) (s : State)
    → IsBounded s
    → IsBounded (start_rollback reason deadline t a s)
unfolding start_rollback
start_rollback-IsBounded reason deadline t a s k = elim (Bool-cases (is_finalizing a.phase)) [
  | inl late ↦ rw late (audit-IsBounded _ _ t _ (active-IsBounded s _ k))
  | inr early ↦
      rw early (audit-IsBounded _ _ t _ (route-IsBounded _ 0 refl (active-IsBounded s _ k)))
]

arm-IsBounded :
    (timeout t : Time) (s : State) {s' : State}
    → IsBounded s
    → arm timeout t s ≡ ok s'
    → IsBounded s'
unfolding arm
arm-IsBounded timeout t s k e =
    let (n, went, e1) = >>=-eq-ok (update_active _ s) _ e in
    rw (← ok-injective e1) (route-IsBounded n 10 refl (update_active-IsBounded _ s k went))

next_weight-known : (w : ℕ) {n : ℕ} → next_weight w ≡ ok n → is_known_weight n ≡ true
unfolding next_weight
next_weight-known w e = elim (Bool-cases (w == 10)) [
  | inl hit ↦ rw (← ok-injective (rw (next_weight, hit) at e)) refl
  | inr miss ↦ elim (Bool-cases (w == 25)) [
    | inl hit' ↦ rw (← ok-injective (rw (next_weight, miss, hit') at e)) refl
    | inr miss' ↦ elim (Bool-cases (w == 50)) [
      | inl hit'' ↦ rw (← ok-injective (rw (next_weight, miss, miss', hit'') at e)) refl
      | inr miss'' ↦ let bad = (rw (next_weight, miss, miss', miss'') at e) in cc
    ]
  ]
]

advance_stage-IsBounded :
    (digest : String) (w new : ℕ) (timeout t1 t2 : Time) (s : State) {s' : State}
    → next_weight w ≡ ok new
    → IsBounded s
    → advance_stage digest w new timeout t1 t2 s ≡ ok s'
    → IsBounded s'
unfolding advance_stage
advance_stage-IsBounded digest w new timeout t1 t2 s h k e =
    let (n, went, e1) = >>=-eq-ok (update_active _ (route s new)) _ e in
    rw (← ok-injective e1) (
      audit-IsBounded n _ t2 _ (
        update_active-IsBounded _ (route s new) (route-IsBounded s new (next_weight-known w h) k)
          went))

stable-IsBounded : (s : State) (c : Release) → IsBounded s → IsBounded (record s { stable = c })
stable-IsBounded s c k = record {
  queue = k.queue;
  distinct = k.distinct;
  audited = k.audited;
  processed = k.processed;
  failed = k.failed;
  weight = k.weight;
}

finalize-IsBounded :
    (c : Release) (timeout t1 t2 : Time) (s : State) {s' : State}
    → IsBounded s
    → finalize c timeout t1 t2 s ≡ ok s'
    → IsBounded s'
unfolding finalize
finalize-IsBounded c timeout t1 t2 s k e =
    let (n, went, e1) = >>=-eq-ok (update_active _ (route (record s { stable = c }) 0)) _ e in
    rw (← ok-injective e1) (
      audit-IsBounded n _ t2 _
        (update_active-IsBounded _ _ (route-IsBounded _ 0 refl (stable-IsBounded s c k)) went))

complete-IsBounded :
    (digest : String) (t : Time) (s : State) → IsBounded s → IsBounded (complete digest t s)
unfolding complete
complete-IsBounded digest t s k = audit-IsBounded _ "release_promoted" t _ (record {
  queue = k.queue;
  distinct = k.distinct;
  audited = k.audited;
  processed = length-last_n-le 100 _;
  failed = k.failed;
  weight = k.weight;
})

complete_rollback-IsBounded :
    (a : Active) (t1 t2 : Time) (s : State) {s' : State}
    → IsBounded s
    → complete_rollback a t1 t2 s ≡ ok s'
    → IsBounded s'
unfolding complete_rollback
complete_rollback-IsBounded a t1 t2 s k e =
    let (reason, given, e1) = >>=-eq-ok (or_raise a.reason key_error) _ e in
    rw (← ok-injective e1) (
      audit-IsBounded _ "release_rolled_back" t2 _ (record {
        queue = k.queue;
        distinct = k.distinct;
        audited = k.audited;
        processed = k.processed;
        failed = length-last_n-le 100 _;
        weight = k.weight;
      }))

lease-IsBounded :
    (owner : String) (t : Time) (s : State) → IsBounded s → IsBounded (take_lease owner t s)
unfolding take_lease
lease-IsBounded owner t s k = record {
  queue = k.queue;
  distinct = k.distinct;
  audited = k.audited;
  processed = k.processed;
  failed = k.failed;
  weight = k.weight;
}

step-IsBounded : {s s' : State} → Step s s' → IsBounded s → IsBounded s'
unfolding is_distinct restored
step-IsBounded unchanged k = k
step-IsBounded {s} (ingested parsed event_id t e) k = ingest-IsBounded parsed event_id t s k e
step-IsBounded {s} (retried digest version operator note t e) k =
    retry-IsBounded digest version operator note t s k e
step-IsBounded {s} (leased owner t) k = lease-IsBounded owner t s k
step-IsBounded {s} (rolling_back reason deadline t a) k =
    start_rollback-IsBounded reason deadline t a s k
step-IsBounded {s} nothing_newer k = pending-IsBounded s [] k (omega arith) refl
step-IsBounded {s} (claimed c rest deadline t e) k = claimed-IsBounded s c rest deadline t e k
step-IsBounded {s} (updated f e) k = update_active-IsBounded f s k e
step-IsBounded {s} (armed timeout t e) k = arm-IsBounded timeout t s k e
step-IsBounded {s} (advanced digest w new timeout t1 t2 h e) k =
    advance_stage-IsBounded digest w new timeout t1 t2 s h k e
step-IsBounded {s} (finalized c timeout t1 t2 e) k = finalize-IsBounded c timeout t1 t2 s k e
step-IsBounded {s} (completed digest t) k = complete-IsBounded digest t s k
step-IsBounded {s} routed_away k = route-IsBounded s 0 refl k
step-IsBounded {s} (restored_stable e) k =
    update_active-IsBounded _ (route s 0) (route-IsBounded s 0 refl k) e
step-IsBounded {s} (rolled_back a t1 t2 e) k = complete_rollback-IsBounded a t1 t2 s k e

-- In every state that the steps of the processes lead to, the queue and the histories are bounded, no
-- digest is queued twice, and the weight is one of the stages.
pub Reachable-IsBounded : {s : State} → Reachable s → IsBounded s
unfolding initial_state is_distinct
Reachable-IsBounded initial = record {
  queue = omega arith;
  distinct = refl;
  audited = omega arith;
  processed = omega arith;
  failed = omega arith;
  weight = refl;
}
Reachable-IsBounded (after r st) = step-IsBounded st (Reachable-IsBounded r)
