-- ===== src/Backend/Origin.antt =====
-- Properties of the oldest version that steps carry to every later one.
use ml_template.Backend.History.{Versions, Later}
use ml_template.Backend.Chains.{Chain, At}
use ml_template.Prelude.{ℕ, ◌∷◌, [], ◌++◌, inl, inr}

module _ {S : Type 0} where
  -- There is a version, and the oldest one has the property.
  abbrev pub Oldest : (S → Type 0) → Versions S → Type 0
  Oldest P [] = ⊥
  Oldest P (v ∷ []) = P v.1
  Oldest P (v ∷ u ∷ vs) = Oldest P (u ∷ vs)

module _ {S : Type 0} (P : S → Type 0) where
  Oldest-cons : (v : ℕ × S) (vs : Versions S) → Oldest P vs → Oldest P (v ∷ vs)
  Oldest-cons v [] o = absurd o
  Oldest-cons v (u ∷ vs) o = o

  Oldest-append : (newer vs : Versions S) → Oldest P vs → Oldest P (newer ++ vs)
  Oldest-append [] vs o = o
  Oldest-append (v ∷ newer) vs o = Oldest-cons v (newer ++ vs) (Oldest-append newer vs o)

  pub Oldest-Later : {old new : Versions S} → Oldest P old → Later old new → Oldest P new
  Oldest-Later {old} o (newer, e) = rw e (Oldest-append newer old o)

module _ {S : Type 0} (P : S → Type 0) {R : S → S → Type 0}
    (carry : (s t : S) → P s → R s t → P t) where
  newest-has : (v : ℕ × S) (vs : Versions S) → Chain R (v ∷ vs) → Oldest P (v ∷ vs) → P v.1
  newest-has v [] chain o = o
  newest-has v (u ∷ vs) chain o = carry u.1 v.1 (newest-has u vs chain.1 o) chain.0

  -- Steps carry the property from the oldest version to every one.
  pub each-has : (r : ℕ) (x : S) (vs : Versions S) → Chain R vs → Oldest P vs → At r x vs → P x
  each-has r x [] chain o a = absurd a
  each-has r x (v ∷ vs) chain o (inl e) = rw e.1 (newest-has v vs chain o)
  each-has r x (v ∷ []) chain o (inr a) = absurd a
  each-has r x (v ∷ u ∷ vs) chain o (inr a) = each-has r x (u ∷ vs) chain.1 o a
