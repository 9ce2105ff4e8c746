-- ===== src/Backend/History.antt =====
-- The versions of one object, newest first.
use ml_template.Prelude.{List, ℕ, [], ◌≡◌, ◌++◌, append_assoc, ◌∷◌, ◌≢◌, refl}

abbrev pub Versions : Type 0 → Type 0
Versions S = List (ℕ × S)

module _ {S : Type 0} where
  abbrev pub Fresh : ℕ → Versions S → Type 0
  Fresh r [] = Unit
  Fresh r ((q, s) ∷ vs) = (r ≢ q) × Fresh r vs

  -- No revision stands twice.
  abbrev pub Unique : Versions S → Type 0
  Unique [] = Unit
  Unique ((r, s) ∷ vs) = Fresh r vs × Unique vs

  -- Versions were added, and none was lost.
  abbrev pub Later : Versions S → Versions S → Type 0
  Later old new = (newer : Versions S) × (new ≡ newer ++ old)

  pub Later-refl : (vs : Versions S) → Later vs vs
  Later-refl vs = ([], refl)

  pub Later-trans : {a b c : Versions S} → Later a b → Later b c → Later a c
  Later-trans {a = a} (n, p) (m, q) = (m ++ n, rw (q, p, append_assoc))

  pub Unique-append : (newer vs : Versions S) → Unique (newer ++ vs) → Unique vs
  Unique-append [] vs u = u
  Unique-append (v ∷ newer) vs u = Unique-append newer vs u.1

  not-Fresh : (r : ℕ) (s : S) (newer vs : Versions S) → Fresh r (newer ++ (r, s) ∷ vs) → ⊥
  not-Fresh r s [] vs f = f.0 refl
  not-Fresh r s (v ∷ newer) vs f = not-Fresh r s newer vs f.1

  -- The newest version is the one with its revision.
  pub newest_of_revision :
      (r : ℕ) (x s : S) (older newer vs : Versions S)
      → Unique ((r, x) ∷ older)
      → (r, x) ∷ older ≡ newer ++ (r, s) ∷ vs
      → (x ≡ s) × (older ≡ vs)
  newest_of_revision r x s older [] vs u e = (cc, cc)
  newest_of_revision r x s older (v ∷ newer) vs u e =
      let below : older ≡ newer ++ (r, s) ∷ vs = cc in
      absurd (not-Fresh r s newer vs (rw below at (u.0)))
