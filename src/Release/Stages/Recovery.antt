-- ===== src/Release/Stages/Recovery.antt =====
-- What a rollback gives back, and the order of the traffic weights.
use ml_template.Prelude.{
  ◌≡◌, ok, String, some, ◌⊎◌, none, last_n, ◌+◌, arith, ◌++◌, ◌∷◌, [], Option, ℕ, ◌∙◌, false,
  >>=-eq-ok, ap, refl, or_raise, sym, key_error, type_error, or_raise-ok, ok-injective,
  if◌then◌else◌, ◌==◌, ◌>>=◌, Bool-cases, inl, inr, ℕ_eq,
}
use ml_template.Release.Stages.{
  claim_candidate, promote_stage, new_release, next_weight, request_rollback, update_active,
  start_rollback, restored, route, arm, is_recovery, commit_stable, above,
}
use ml_template.Release.State.{audit, history}
use ml_template.Release.Types.{
  ServingPair, Time, PendingItem, State, Active, rollback, finalizing, ramp, draining,
}
use ml_template.Release.Authorization.{to_int}

-- A write between a claim and a rollback, by the controller with this stage timeout or by a process
-- beside it, which leaves the release as it is.
pub data Stage (timeout : Time) (s s' : State) : Type 0 where
  arms : (t : Time) → arm timeout t s ≡ ok s' → Stage timeout s s'
  settles :
      (t : Time)
      → update_active (λ a. record a { stage_since = some t }) s ≡ ok s'
      → Stage timeout s s'
  promotes :
      (weight : ℕ) (t1 t2 : Time)
      → promote_stage weight timeout t1 t2 s ≡ ok s'
      → Stage timeout s s'
  commits :
      (pair : ServingPair) (fingerprint : String) (t1 t2 : Time)
      → commit_stable pair fingerprint timeout t1 t2 s ≡ ok s'
      → Stage timeout s s'
  beside : s'.active ≡ s.active → Stage timeout s s'

pub data Later (timeout : Time) (claimed : State) : State → Type 0 where
  at_once : Later timeout claimed claimed
  onward : {s s' : State} → Later timeout claimed s → Stage timeout s s' → Later timeout claimed s'

-- The release in progress is the item's, not in a recovery, and keeps what was stable before.
Carries : ServingPair → Option String → PendingItem → State → Type 0
Carries q fingerprint item s =
    (a : Active) × (s.active ≡ some a)
    × (is_recovery a.phase ≡ false)
    × (a.previous_stable ≡ q)
    × (some a.previous_fingerprint ≡ fingerprint)
    × (item.pair ≡ some a.pair)

claim_candidate-Carries :
    (q : ServingPair) (item : PendingItem) (timeout t1 t2 : Time) (s : State) {claimed : State}
    → claim_candidate q item timeout t1 t2 s ≡ ok claimed
    → Carries q s.stable_fingerprint item claimed
unfolding claim_candidate new_release audit route Carries
claim_candidate-Carries q item timeout t1 t2 s {claimed} c =
    let (pair, has_pair, c1) = >>=-eq-ok (or_raise item.pair key_error) _ c in
    let (version, read, c2) = >>=-eq-ok (to_int pair.model_version) _ c1 in
    let (pending, kept, c3) = >>=-eq-ok (above version s.pending) _ c2 in
    let (fingerprint, has_fingerprint, c4) = >>=-eq-ok (or_raise item.fingerprint key_error) _ c3 in
    let (before, had, c5) = >>=-eq-ok (or_raise s.stable_fingerprint type_error) _ c4 in
    let (auth, approved, c6) = >>=-eq-ok (or_raise item.authorization key_error) _ c5 in
    let a = new_release pair fingerprint auth q before (t1 + timeout) in
    let there : claimed.active ≡ some a = ground arith in
    (
      a,
      there,
      refl,
      refl,
      sym (or_raise-ok s.stable_fingerprint type_error had),
      or_raise-ok item.pair key_error has_pair,
    )

module _ (q : ServingPair) (fingerprint : Option String) (item : PendingItem) where
  update-Carries :
      (f : Active → Active) (s : State) {s' : State}
      → ((a : Active)
          → is_recovery a.phase ≡ false
          → (is_recovery (f a).phase ≡ false)
            × ((f a).previous_stable ≡ a.previous_stable)
            × ((f a).previous_fingerprint ≡ a.previous_fingerprint)
            × ((f a).pair ≡ a.pair))
      → Carries q fingerprint item s
      → update_active f s ≡ ok s'
      → Carries q fingerprint item s'
  unfolding update_active Carries
  update-Carries f s {s'} keeps (a, there, going, stable, print, pair) e =
      let (on, p1, p2, p3) = keeps a going in
      let now : s'.active ≡ some (f a) = ground arith in
      (f a, now, on, p1 ∙ stable, ap some p2 ∙ print, pair ∙ ap some (sym p3))

  beside-Carries :
      (s s' : State)
      → s'.active ≡ s.active
      → Carries q fingerprint item s
      → Carries q fingerprint item s'
  unfolding Carries
  beside-Carries s s' same (a, there, going, stable, print, pair) =
      (a, same ∙ there, going, stable, print, pair)

  route-active : (s : State) (weight : ℕ) → (route s weight).active ≡ s.active
  unfolding route
  route-active s weight = ground arith

  step-Carries :
      (timeout : Time) (s s' : State)
      → Stage timeout s s'
      → Carries q fingerprint item s
      → Carries q fingerprint item s'
  unfolding arm promote_stage commit_stable audit
  step-Carries timeout s s' (arms t e) c =
      let f : Active → Active =
        (λ a. record a { phase = ramp; stage_since = none; deadline = t + timeout }) in
      let (next, updated, e1) = >>=-eq-ok (update_active f s) _ e in
      beside-Carries next s'
        (ap (λ (x : State). x.active) (sym (ok-injective e1)) ∙ route-active next 10)
        (update-Carries f s (λ a k. (refl, refl, refl, refl)) c updated)
  step-Carries timeout s s' (settles t e) c = update-Carries _ s (λ a k. (k, refl, refl, refl)) c e
  step-Carries timeout s s' (promotes weight t1 t2 e) c =
      let full : Active → Active =
        (λ a. record a { phase = finalizing; deadline = t1 + timeout }) in
      let again : Active → Active =
        (λ a. record a { stage_since = none; deadline = t1 + timeout }) in
      let (next, updated, e1) =
        >>=-eq-ok
          (if weight == 100
            then update_active full s
            else (next_weight weight >>= λ w. update_active again (route s w)))
          _ e in
      let same : s'.active ≡ next.active = ap (λ (x : State). x.active) (sym (ok-injective e1)) in
      beside-Carries next s' same (elim (Bool-cases (weight == 100)) [
        | inl last ↦ update-Carries full s (λ a k. (refl, refl, refl, refl)) c (rw last at updated)
        | inr below ↦
            let (w, known, e2) =
              >>=-eq-ok (next_weight weight) (λ w. update_active again (route s w))
                (rw below at updated) in
            update-Carries again (route s w) (λ a k. (k, refl, refl, refl))
              (beside-Carries s (route s w) (route-active s w) c) e2
      ])
  step-Carries timeout s s' (commits pair print t1 t2 e) c =
      let f : Active → Active = (λ a. record a { phase = draining; deadline = t1 + timeout }) in
      let committed : State = record s { stable = some pair; stable_fingerprint = some print } in
      let (next, updated, e1) = >>=-eq-ok (update_active f committed) _ e in
      beside-Carries next s'
        (ap (λ (x : State). x.active) (sym (ok-injective e1)) ∙ route-active next 0)
        (update-Carries f committed (λ a k. (refl, refl, refl, refl))
          (beside-Carries s committed refl c) updated)
  step-Carries timeout s s' (beside same) c = beside-Carries s s' same c

  Later-Carries :
      {timeout : Time} {claimed s : State}
      → Carries q fingerprint item claimed
      → Later timeout claimed s
      → Carries q fingerprint item s
  Later-Carries c at_once = c
  Later-Carries {timeout} c (onward l st) = step-Carries timeout _ _ st (Later-Carries c l)

-- A candidate that was claimed and is rolled back, at whatever stage it is by then, gets no traffic,
-- and once the rollback is complete the stable pair and fingerprint are those from before the claim,
-- no release is active, and the last failure is the candidate's, with the reason.
pub rollback-restores :
    (q : ServingPair) (item : PendingItem) (timeout t1 t2 t3 t4 t5 : Time) (reason : String)
    (s reached : State) {claimed rolled : State} {a : Active}
    → claim_candidate q item timeout t1 t2 s ≡ ok claimed
    → Later timeout claimed reached
    → request_rollback reason timeout t3 t4 reached ≡ ok rolled
    → rolled.active ≡ some a
    → (rolled.route.weight ≡ 0)
      × (a.phase ≡ rollback)
      × ((restored a t5 rolled).stable ≡ some q)
      × ((restored a t5 rolled).stable_fingerprint ≡ s.stable_fingerprint)
      × ((restored a t5 rolled).active ≡ none)
      × (item.pair ≡ some a.pair)
      × ((restored a t5 rolled).failed
          ≡ last_n history (reached.failed ++ record { pair = a.pair; reason = some reason } ∷ []))
unfolding request_rollback start_rollback restored audit route Carries
rollback-restores q item timeout t1 t2 t3 t4 t5 reason s reached {claimed} {rolled} {a} c l r e =
    let (old, there, going, stable, print, pair) =
      Later-Carries q s.stable_fingerprint item (claim_candidate-Carries q item timeout t1 t2 s c)
        l in
    ground arith

-- A promotion from the weight of the route leads from 10 to 25, 50 and 100 percent and then, at the
-- same route, to the finalizing phase; the phase stays before that, and the stage begins anew.
pub promote_stage-Order :
    (timeout t1 t2 : Time) (s : State) {a : Active} {next : State}
    → s.active ≡ some a
    → promote_stage s.route.weight timeout t1 t2 s ≡ ok next
    → ((s.route.weight ≡ 10) × (next.route.weight ≡ 25)
          ⊎ (s.route.weight ≡ 25) × (next.route.weight ≡ 50)
          ⊎ (s.route.weight ≡ 50) × (next.route.weight ≡ 100))
        × (next.active ≡ some (record a { stage_since = none; deadline = t1 + timeout }))
      ⊎ (s.route.weight ≡ 100)
        × (next.route ≡ s.route)
        × (next.active ≡ some (record a { phase = finalizing; deadline = t1 + timeout }))
unfolding promote_stage next_weight update_active audit route
promote_stage-Order timeout t1 t2 s e p = ground arith
