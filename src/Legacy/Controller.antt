-- ===== src/Legacy/Controller.antt =====
-- `Controller` of control_plane/controller.py: the lease, and what every phase shares.
use ml_template.Prelude.Actions.{Action, return, lift, ◌>>=◌, ◌>>◌}
use ml_template.Prelude.{
  ℕ, String, Bool, Result, none, some, check, busy, true, if◌then◌else◌, List, filter, ◌&&◌,
  option_beq, ◌∷◌, ◌==◌, ◌+◌, ltb, ℕ_eq, [], false, String_eq, Option,
}
use ml_template.Backend.{Backend, now}
use ml_template.Release.Types.{Time, Lease}
use ml_template.Release.Controller.{Lane, RouterView}
use ml_template.Release.Stages.{holds_lease}
use ml_template.Legacy.Types.{State, Release, Library, Active}
use ml_template.Legacy.Store.{Mutation, update, read, retries}
use ml_template.Legacy.Effects.{Cluster}
use ml_template.Legacy.Stages.{
  take_lease, owns_lease, is_settled, start_rollback, is_newer, newest, start_release,
}

-- whether the router has the weight and the revision, and is ready too
unfoldable pub has_weight : RouterView → ℕ → ℕ → Bool
has_weight seen weight revision =
    option_beq seen.weight (some weight) && option_beq seen.revision (some revision)

unfoldable pub has_route : RouterView → ℕ → ℕ → Bool
unfolding has_weight
has_route seen weight revision = seen.ready && has_weight seen weight revision

module _ (b : Backend State) (lib : Library) (cluster : Cluster b.World) (owner : String)
    (timeout : Time) where
  abbrev Act : Type 0 → Type 0
  Act A = Action b.World A

  -- the closure of `acquire`: without a lease of another owner, the clock is read once
  unfoldable pub claim_over : Option Lease → Mutation b lib Bool
  claim_over none s = do t ← now b; return (true, take_lease owner t s)
  claim_over (some l) s =
      if l.owner == owner then (do t ← now b; return (true, take_lease owner t s)) else (do
        t ← now b
        (if ltb t l.until
            then return (false, s)
            else (do t' ← now b; return (true, take_lease owner t' s))))

  unfoldable pub claim_lease : Mutation b lib Bool
  unfolding claim_over
  claim_lease s = claim_over s.lease s

  unfoldable pub acquire : Act Bool
  unfolding claim_lease
  acquire = update b lib retries claim_lease

  -- `guard`, which returns the state that it read; the clock is read even where the `or` of the code
  -- stops before it, here and in `change`
  unfoldable pub guard : Act State
  guard = do
    s ← read b lib
    t ← now b
    lift (check (holds_lease owner t s.lease) (busy "Controller lease unavailable"))
    return s

  -- the closure of `change`, of a mutation that returns nothing
  unfoldable pub guarded : (State → Act State) → Mutation b lib (Unit {0})
  guarded mutate s = do
    t ← now b
    lift (check (owns_lease owner t s.lease) (busy "Controller lease lost"))
    next ← mutate s
    return (tt, next)

  unfoldable pub change : (State → Act State) → Act (Unit {0})
  unfolding guarded
  change mutate = update b lib retries (guarded mutate)

  unfoldable pub ensure : Lane → String → ℕ → Act (Unit {0})
  ensure lane digest replicas = do guard; cluster.ensure lane digest replicas

  -- a mutation that looks at the clock once, or twice
  unfoldable pub once : (Time → State → Result State) → Act (Unit {0})
  once f = change (λ s. do t ← now b; lift (f t s))

  unfoldable pub twice : (Time → Time → State → Result State) → Act (Unit {0})
  twice f = change (λ s. do t1 ← now b; t2 ← now b; lift (f t1 t2 s))

  -- the closure of `begin_rollback`, which leaves a release that is settled as it is
  unfoldable pub roll_back_active : String → Option Active → State → Act State
  roll_back_active reason none s = return s
  roll_back_active reason (some a) s =
      if is_settled a.phase
      then return s
      else (do t1 ← now b; t2 ← now b; return (start_rollback reason (t1 + timeout) t2 a s))

  unfoldable pub roll_back : String → State → Act State
  unfolding roll_back_active
  roll_back reason s = roll_back_active reason s.active s

  unfoldable pub begin_rollback : String → Act (Unit {0})
  unfolding roll_back
  begin_rollback reason = change (roll_back reason)

  unfoldable pub claim_newest : State → List Release → Act State
  claim_newest s [] = return (record s { pending = [] })
  claim_newest s (c ∷ rest) = do
    t1 ← now b
    t2 ← now b
    return (start_release (c ∷ rest) (newest c rest) (t1 + timeout) t2 s)

  -- the closure `claim`
  unfoldable pub claim : State → Act State
  unfolding claim_newest
  claim s = claim_newest s (filter (λ c. is_newer s.stable c) s.pending)
