-- ===== src/Legacy/Store.antt =====
-- `Store` of control_plane/state.py over a backend that compares and swaps, `enqueue` and
-- `operator_retry`.
pub mod Linear
pub mod Keeping
use ml_template.Prelude.Actions.{Action, return, raise, lift, ◌>>=◌, ◌>>◌}
use ml_template.Backend.{Backend, now}
use ml_template.Legacy.Types.{State, Library, Release}
use ml_template.Legacy.Candidates.{Parsed}
use ml_template.Legacy.Queue.{ingest, retry}
use ml_template.Prelude.{
  ℕ, String, Option, Result, ok, err, conflict, busy, check, leb, Bool, ◌&&◌, suc, any, value_error,
  zero, not, length, codes,
}
use ml_template.Runtime.Requirements.{is_space}
use ml_template.Release.Pairs.{is_digest}

abbrev pub retries : ℕ
retries = 8

module _ (b : Backend State) (lib : Library) where
  open b use {World}

  -- A function that changes a snapshot. It may look at the clock.
  abbrev pub Mutation : Type 0 → Type 0
  Mutation A = State → Action World (A × State)

  -- `Store.read`
  unfoldable pub read : Action World State
  read = do (revision, s) ← b.read_state; return s

  -- the size of the state, tested before it is written
  unfoldable pub check_size : State → Result (Unit {0})
  check_size s = check (leb (lib.state_size s) 500000) (busy "State size bound exceeded")

  -- the write, with the rounds that follow a conflict
  finish : {A : Type 0} → A → Action World A → Result (Unit {0}) → Action World A
  finish a again (ok _) = return a
  finish a again (err conflict) = again
  finish a again (err e) = raise e

  write : {A : Type 0} → ℕ → A → State → Action World A → Action World A
  unfolding finish
  write revision a next again w = let (r, w') = b.write_state revision next w in finish a again r w'

  cycle : {A : Type 0} → Mutation A → Action World A → Action World A
  unfolding write check_size
  cycle mutate again = do
    (revision, s) ← b.read_state
    (a, next) ← mutate s
    lift (check_size next)
    write revision a next again

  -- `Store.update` with the rounds that are left
  unfoldable pub update : {A : Type 0} → ℕ → Mutation A → Action World A
  unfolding cycle
  update zero mutate = raise (busy "State optimistic concurrency retries exhausted")
  update (suc n) mutate = cycle mutate (update n mutate)

  -- the closures that read the clock for their audit entry
  unfoldable pub ingest_now : Parsed → Option String → Mutation String
  ingest_now parsed event_id s = do t ← now b; lift (ingest parsed event_id t s)

  -- `enqueue`
  unfoldable pub enqueue : Parsed → Option String → Action World String
  unfolding ingest_now
  enqueue parsed event_id = update retries (ingest_now parsed event_id)

  retry_now : String → ℕ → String → String → Mutation Release
  retry_now digest version operator note s = do
    t ← now b
    lift (retry digest version operator note t s)

  -- `text.strip()` is not empty
  has_ink : String → Bool
  has_ink t = any (λ c. not (is_space c)) (codes t)

  -- `operator_retry`
  unfoldable pub operator_retry : String → ℕ → String → String → Action World Release
  unfolding retry_now has_ink
  operator_retry digest version operator note = do
    lift (
        check (is_digest digest && has_ink operator && has_ink note)
          (value_error "Digest, operator and explanation are required"))
    lift (
        check (leb (length (codes operator)) 128 && leb (length (codes note)) 1024)
          (value_error "Audit fields too long"))
    update retries (retry_now digest version operator note)
