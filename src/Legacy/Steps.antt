-- ===== src/Legacy/Steps.antt =====
-- How the state of the first control plane changes: one step for each closure that its processes
-- hand to the store.
pub mod Bounds
pub mod Keeping
use ml_template.Prelude.{ℕ, String, List, Option, ok, ◌≡◌, [], filter, ◌∷◌}
use ml_template.Release.Types.{Time}
use ml_template.Release.Stages.{next_weight}
use ml_template.Legacy.Types.{State, Active, Release}
use ml_template.Legacy.Candidates.{Parsed}
use ml_template.Legacy.Queue.{ingest, retry, initial_state}
use ml_template.Legacy.Stages.{
  take_lease, start_rollback, start_release, is_newer, newest, arm, advance_stage, start_finalizing,
  finalize, complete, restored, complete_rollback, route, update_active,
}

pub data Step : State → State → Type 0 where
  -- a closure that leaves the snapshot as it is
  unchanged : {s : State} → Step s s
  ingested :
      {s s' : State} {outcome : String} (parsed : Parsed) (event_id : Option String) (t : Time)
      → ingest parsed event_id t s ≡ ok (outcome, s')
      → Step s s'
  retried :
      {s s' : State} {c : Release} (digest : String) (version : ℕ) (operator note : String)
      (t : Time)
      → retry digest version operator note t s ≡ ok (c, s')
      → Step s s'
  leased : {s : State} (owner : String) (t : Time) → Step s (take_lease owner t s)
  rolling_back :
      {s : State} (reason : String) (deadline t : Time) (a : Active)
      → Step s (start_rollback reason deadline t a s)
  nothing_newer : {s : State} → Step s (record s { pending = [] })
  claimed :
      {s : State} (c : Release) (rest : List Release) (deadline t : Time)
      → filter (λ x. is_newer s.stable x) s.pending ≡ c ∷ rest
      → Step s (start_release (c ∷ rest) (newest c rest) deadline t s)
  updated : {s s' : State} (f : Active → Active) → update_active f s ≡ ok s' → Step s s'
  armed : {s s' : State} (timeout t : Time) → arm timeout t s ≡ ok s' → Step s s'
  advanced :
      {s s' : State} (digest : String) (weight new : ℕ) (timeout t1 t2 : Time)
      → next_weight weight ≡ ok new
      → advance_stage digest weight new timeout t1 t2 s ≡ ok s'
      → Step s s'
  finalized :
      {s s' : State} (c : Release) (timeout t1 t2 : Time)
      → finalize c timeout t1 t2 s ≡ ok s'
      → Step s s'
  completed : {s : State} (digest : String) (t : Time) → Step s (complete digest t s)
  routed_away : {s : State} → Step s (route s 0)
  restored_stable : {s s' : State} → restored s ≡ ok s' → Step s s'
  rolled_back :
      {s s' : State} (a : Active) (t1 t2 : Time) → complete_rollback a t1 t2 s ≡ ok s' → Step s s'

-- The states that steps lead to from the initial one.
pub data Reachable : State → Type 0 where
  initial : Reachable initial_state
  after : {s s' : State} → Reachable s → Step s s' → Reachable s'
