-- ===== src/Release/Moves.antt =====
-- The steps that the controller makes of the release state, as a relation.
use ml_template.Release.Types.{
  Time, ServingPair, Authorization, PendingItem, Active, State, blocked,
}
use ml_template.Release.Stages.{
  update_active, take_lease, claim_candidate, arm, promote_stage, commit_stable, complete,
  request_rollback, route, restored,
}
use ml_template.Prelude.{◌≡◌, String, ok, some, ℕ, Option}

-- One write of a controller with this stage timeout.
pub data Move (timeout : Time) (s s' : State) : Type 0 where
  stays : s' ≡ s → Move timeout s s'
  leases : (owner : String) (t : Time) → s' ≡ take_lease owner t s → Move timeout s s'
  claims :
      (stable : ServingPair) (item : PendingItem) (t1 t2 : Time)
      → claim_candidate stable item timeout t1 t2 s ≡ ok s'
      → Move timeout s s'
  arms : (t : Time) → arm timeout t s ≡ ok s' → Move timeout s s'
  settles :
      (t : Time)
      → update_active (λ a. record a { stage_since = some t }) s ≡ ok s'
      → Move timeout s s'
  promotes :
      (weight : ℕ) (t1 t2 : Time) → promote_stage weight timeout t1 t2 s ≡ ok s' → Move timeout s s'
  commits :
      (pair : ServingPair) (fingerprint : String) (t1 t2 : Time)
      → commit_stable pair fingerprint timeout t1 t2 s ≡ ok s'
      → Move timeout s s'
  completes :
      (pair : ServingPair) (auth : Option Authorization) (t : Time)
      → s' ≡ complete pair auth t s
      → Move timeout s s'
  rolls_back :
      (reason : String) (t1 t2 : Time)
      → request_rollback reason timeout t1 t2 s ≡ ok s'
      → Move timeout s s'
  reroutes : s' ≡ route s 0 → Move timeout s s'
  blocks : update_active (λ a. record a { phase = blocked }) s ≡ ok s' → Move timeout s s'
  restores : (a : Active) (t : Time) → s' ≡ restored a t s → Move timeout s s'
