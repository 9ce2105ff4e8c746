-- ===== src/Backend/Chains.antt =====
-- Properties of every step from one stored version to the next, whoever writes it.
use ml_template.Backend.{Backend, IsCas}
use ml_template.Backend.History.{Versions, Unique, Later, Fresh}
use ml_template.Prelude.{◌∷◌, ℕ, ◌≡◌, ◌++◌, inl, [], inr, ◌⊎◌, ◌∙◌, sym, subst}

module _ {S : Type 0} where
  -- Each version stands in the relation to the one below it.
  abbrev pub Chain : (S → S → Type 0) → Versions S → Type 0
  Chain R [] = Unit
  Chain R (v ∷ []) = Unit
  Chain R (v ∷ u ∷ vs) = R u.1 v.1 × Chain R (u ∷ vs)

  -- The version with a revision.
  abbrev pub At : ℕ → S → Versions S → Type 0
  At r x [] = ⊥
  At r x ((q, s) ∷ vs) = ((r ≡ q) × (x ≡ s)) ⊎ At r x vs

  At-later : (r : ℕ) (x : S) (newer vs : Versions S) → At r x vs → At r x (newer ++ vs)
  At-later r x [] vs a = a
  At-later r x (v ∷ newer) vs a = inr (At-later r x newer vs a)

  pub At-Later : (r : ℕ) (x : S) {vs us : Versions S} → At r x vs → Later vs us → At r x us
  At-Later r x {vs} a (newer, e) = rw e (At-later r x newer vs a)

  not-At-Fresh : (r : ℕ) (x : S) (vs : Versions S) → Fresh r vs → At r x vs → ⊥
  not-At-Fresh r x [] f a = a
  not-At-Fresh r x ((q, s) ∷ vs) f (inl e) = f.0 e.0
  not-At-Fresh r x ((q, s) ∷ vs) f (inr a) = not-At-Fresh r x vs f.1 a

  -- A revision belongs to one state.
  pub At-Unique : (r : ℕ) (x y : S) (vs : Versions S) → Unique vs → At r x vs → At r y vs → x ≡ y
  At-Unique r x y [] u a b = absurd a
  At-Unique r x y ((q, s) ∷ vs) u (inl a) (inl b) = a.1 ∙ sym b.1
  At-Unique r x y ((q, s) ∷ vs) u (inl a) (inr b) =
      absurd (not-At-Fresh q y vs u.0 (subst (λ t. At t y vs) a.0 b))
  At-Unique r x y ((q, s) ∷ vs) u (inr a) (inl b) =
      absurd (not-At-Fresh q x vs u.0 (subst (λ t. At t x vs) b.0 a))
  At-Unique r x y ((q, s) ∷ vs) u (inr a) (inr b) = At-Unique r x y vs u.1 a b

module _ {S : Type 0} {R : S → S → Type 0} (same : (s : S) → R s s)
    (join : (s t u : S) → R s t → R t u → R s u) where
  -- The newest version of a chain stands in the relation to every older one.
  newest-related :
      (q : ℕ) (y x : S) (r : ℕ) (vs : Versions S) → Chain R ((r, x) ∷ vs) → At q y vs → R y x
  newest-related q y x r [] chain a = absurd a
  newest-related q y x r ((p, s) ∷ vs) chain (inl e) = rw e.1 chain.0
  newest-related q y x r ((p, s) ∷ vs) chain (inr a) =
      join y s x (newest-related q y s p vs chain.1 a) chain.0

  tail-Chain : (v : ℕ × S) (vs : Versions S) → Chain R (v ∷ vs) → Chain R vs
  tail-Chain v [] chain = tt
  tail-Chain v (u ∷ vs) chain = chain.1

  -- Of two versions of a chain, one stands in the relation to the other.
  pub Chain-related :
      (r q : ℕ) (x y : S) (vs : Versions S) → Chain R vs → At r x vs → At q y vs → R x y ⊎ R y x
  Chain-related r q x y [] chain a b = absurd a
  Chain-related r q x y ((p, s) ∷ vs) chain (inl e) (inl f) = rw (e.1, f.1) (inl (same s))
  Chain-related r q x y ((p, s) ∷ vs) chain (inl e) (inr b) =
      rw e.1 (inr (newest-related q y s p vs chain b))
  Chain-related r q x y ((p, s) ∷ vs) chain (inr a) (inl f) =
      rw f.1 (inl (newest-related r x s p vs chain a))
  Chain-related r q x y ((p, s) ∷ vs) chain (inr a) (inr b) =
      Chain-related r q x y vs (tail-Chain (p, s) vs chain) a b

-- The other writers keep to the relation, and a write of ours adds the written state on top of the
-- version that it names.
pub record Peers {S : Type 0} {b : Backend S} (c : IsCas b) (R : S → S → Type 0) : Type 0 where
  pub clock_Chain : (w : b.World) → Chain R (c.versions w) → Chain R (c.versions (b.clock w).1)
  pub read_Chain : (w : b.World) → Chain R (c.versions w) → Chain R (c.versions (b.read_state w).1)
  pub write_Chain :
      (r : ℕ) (s : S) (w : b.World)
      → Chain R (c.versions w)
      → ((x : S) → At r x (c.versions (b.write_state r s w).1) → R x s)
      → Chain R (c.versions (b.write_state r s w).1)
