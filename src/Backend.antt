-- ===== src/Backend.antt =====
-- The object that a store keeps its state in: one ConfigMap, read and written over the Kubernetes
-- API, with the clock of the process. The API is not part of the repository: `Backend` is what
-- the stores call, and `IsCas` what they rely on.
pub mod History
pub mod Writes
pub mod Chains
pub mod Keeping
pub mod Memory
pub mod Origin
use ml_template.Backend.History.{Versions, Unique, Later}
use ml_template.Prelude.Actions.{Action}
use ml_template.Prelude.{ℕ, ok, ◌≡◌, ◌∷◌, ◌++◌}

pub record Backend (S : Type 0) : Type 1 where
  pub World : Type 0
  -- the revision, a token that is only compared, and the state
  pub read_state : Action World (ℕ × S)
  -- writes the state if the revision is still the stored one, and raises Conflict if not
  pub write_state : ℕ → S → Action World (Unit {0})
  pub clock : World → (ℕ × World)

-- Optimistic concurrency, as the API documents it for `resourceVersion`: every write makes a
-- version with a revision of its own, a read returns the newest version, and a write succeeds
-- only on top of the version whose revision it names. Other writers may write at any call.
pub record IsCas {S : Type 0} (b : Backend S) : Type 0 where
  -- every version so far, newest first
  pub versions : b.World → Versions S
  pub unique : (w : b.World) → Unique (versions w)
  pub clock_later : (w : b.World) → Later (versions w) (versions (b.clock w).1)
  pub read_later : (w : b.World) → Later (versions w) (versions (b.read_state w).1)
  pub write_later :
      (r : ℕ) (s : S) (w : b.World) → Later (versions w) (versions (b.write_state r s w).1)
  pub read_newest :
      (w : b.World) (r : ℕ) (s : S)
      → (b.read_state w).0 ≡ ok (r, s)
      → (older : Versions S) × (versions (b.read_state w).1 ≡ (r, s) ∷ older)
  pub write_on_top :
      (r : ℕ) (s : S) (w : b.World) (u : Unit {0})
      → (b.write_state r s w).0 ≡ ok u
      → (x : S) × (r' : ℕ) × (older : Versions S) × (newer : Versions S) × Later
          (versions w)
          ((r, x) ∷ older)
        × (versions (b.write_state r s w).1 ≡ newer ++ (r', s) ∷ (r, x) ∷ older)

module _ {S : Type 0} (b : Backend S) where
  -- `self.clock()`
  unfoldable pub now : Action b.World ℕ
  now w = let (t, w') = b.clock w in (ok t, w')
