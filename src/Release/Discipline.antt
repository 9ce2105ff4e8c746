-- ===== src/Release/Discipline.antt =====
-- A relation between one version of the release state and the next: the revision and the weight of
-- the route, and the highest accepted version.
use ml_template.Release.Types.{Time, ServingPair, Authorization, PendingItem, Active, State, Field}
use ml_template.Release.Stages.{
  update_active, route, arm, request_rollback, commit_stable, promote_stage, claim_candidate,
  take_lease, next_weight, complete, restored,
}
use ml_template.Release.Moves.{
  Move, stays, leases, claims, arms, settles, promotes, commits, completes, rolls_back, reroutes,
  blocks, restores,
}
use ml_template.Prelude.{arith, ◌≤◌, ◌≡◌, ℕ, String, ok, ◌∙◌, refl, List, Option}
use ml_template.Release.State.{audit}

-- The step from one version of the state to the next.
pub record Disciplined (s s' : State) : Type 0 where
  pub grows : s.route.revision ≤ s'.route.revision
  pub tells : s.route.revision ≡ s'.route.revision → s.route.weight ≡ s'.route.weight
  pub accepts : s.highest_accepted ≤ s'.highest_accepted
  pub same_model : s'.model_name ≡ s.model_name

pub Disciplined-refl : (s : State) → Disciplined s s
Disciplined-refl s = record {
  grows = omega arith;
  tells = λ e. refl;
  accepts = omega arith;
  same_model = refl;
}

pub Disciplined-trans : (s t u : State) → Disciplined s t → Disciplined t u → Disciplined s u
Disciplined-trans s t u p q = record {
  grows = omega arith;
  tells = λ e. p.tells (omega arith) ∙ q.tells (omega arith);
  accepts = omega arith;
  same_model = q.same_model ∙ p.same_model;
}

pub route-Disciplined : (s : State) (w : ℕ) → Disciplined s (route s w)
unfolding route
route-Disciplined s w = ground arith

pub audit-Disciplined :
    (s : State) (reason : String) (t : Time) (fields : List (String × Field))
    → Disciplined s (audit s reason t fields)
unfolding audit
audit-Disciplined s reason t fields = ground arith

update_active-Disciplined :
    (f : Active → Active) (s s' : State) → update_active f s ≡ ok s' → Disciplined s s'
unfolding update_active
update_active-Disciplined f s s' e = ground arith

arm-Disciplined : (timeout t : Time) (s s' : State) → arm timeout t s ≡ ok s' → Disciplined s s'
unfolding arm update_active route
arm-Disciplined timeout t s s' e = ground arith

rollback-Disciplined :
    (reason : String) (timeout t u : Time) (s s' : State)
    → request_rollback reason timeout t u s ≡ ok s'
    → Disciplined s s'
unfolding request_rollback audit route
rollback-Disciplined reason timeout t u s s' e = ground arith

commit-Disciplined :
    (q : ServingPair) (fp : String) (timeout t u : Time) (s s' : State)
    → commit_stable q fp timeout t u s ≡ ok s'
    → Disciplined s s'
unfolding commit_stable update_active audit route
commit-Disciplined q fp timeout t u s s' e = ground arith

promote-Disciplined :
    (w : ℕ) (timeout t u : Time) (s s' : State)
    → promote_stage w timeout t u s ≡ ok s'
    → Disciplined s s'
unfolding promote_stage next_weight update_active audit route
promote-Disciplined w timeout t u s s' e = ground arith

claim-Disciplined :
    (q : ServingPair) (item : PendingItem) (timeout t u : Time) (s s' : State)
    → claim_candidate q item timeout t u s ≡ ok s'
    → Disciplined s s'
unfolding claim_candidate audit route
claim-Disciplined q item timeout t u s s' e = ground arith

lease-Disciplined : (owner : String) (t : Time) (s : State) → Disciplined s (take_lease owner t s)
unfolding take_lease
lease-Disciplined owner t s = ground arith

complete-Disciplined :
    (q : ServingPair) (auth : Option Authorization) (t : Time) (s : State)
    → Disciplined s (complete q auth t s)
unfolding complete audit
complete-Disciplined q auth t s = ground arith

restored-Disciplined : (a : Active) (t : Time) (s : State) → Disciplined s (restored a t s)
unfolding restored audit
restored-Disciplined a t s = ground arith

-- Each move of the controller keeps to the discipline.
pub Move-Disciplined : (timeout : Time) (s s' : State) → Move timeout s s' → Disciplined s s'
Move-Disciplined timeout s s' (stays e) = rw e (Disciplined-refl s)
Move-Disciplined timeout s s' (leases owner t e) = rw e (lease-Disciplined owner t s)
Move-Disciplined timeout s s' (claims q item t u e) = claim-Disciplined q item timeout t u s s' e
Move-Disciplined timeout s s' (arms t e) = arm-Disciplined timeout t s s' e
Move-Disciplined timeout s s' (settles t e) = update_active-Disciplined _ s s' e
Move-Disciplined timeout s s' (promotes w t u e) = promote-Disciplined w timeout t u s s' e
Move-Disciplined timeout s s' (commits q fp t u e) = commit-Disciplined q fp timeout t u s s' e
Move-Disciplined timeout s s' (completes q auth t e) = rw e (complete-Disciplined q auth t s)
Move-Disciplined timeout s s' (rolls_back reason t u e) =
    rollback-Disciplined reason timeout t u s s' e
Move-Disciplined timeout s s' (reroutes e) = rw e (route-Disciplined s 0)
Move-Disciplined timeout s s' (blocks e) = update_active-Disciplined _ s s' e
Move-Disciplined timeout s s' (restores a t e) = rw e (restored-Disciplined a t s)
