-- ===== src/Prelude/Never.antt =====
-- What actions with a result ran through.
use ml_template.Prelude.Actions.{Action, return, catch, handled, ◌>>=◌, bind-ok}
use ml_template.Prelude.Results.{Error, Result, ok, err, ok-injective}
use ml_template.Prelude.{Bool, true, false, if◌then◌else◌, ◌≡◌, ◌≢◌, ◌⊎◌, inl, inr, ap, refl, ◌∙◌}

-- An action that does not return a value.
module _ {W A : Type 0} (a : A) where
  abbrev pub Never : Action W A → Type 0
  Never m = (w w' : W) → m w ≡ (ok a, w') → ⊥

module _ {W B : Type 0} (b c : B) (other : c ≢ b) where
  pub Never-return : Never b (return {W = W} c)
  Never-return w w' h = other (ok-injective (ap (λ p. p.0) h))

module _ {W A B : Type 0} (b : B) where
  pub Never-bind :
      (m : Action W A) (f : A → Action W B) → ((a : A) → Never b (f a)) → Never b (m >>= f)
  Never-bind m f never w w' h = let (a, v, ran, rest) = bind-ok m f w h in never a v w' rest

module _ {W B : Type 0} where
  pub if-cases :
      (t : Bool) (m n : Action W B) (v : W) (x : Result B × W)
      → (if t then m else n) v ≡ x
      → (m v ≡ x) ⊎ (n v ≡ x)
  if-cases true m n v x h = inl h
  if-cases false m n v x h = inr h

module _ {W : Type 0} where
  -- a catch whose handler does not return the answer
  pub catch-own :
      {A : Type 0} (m : Action W A) (handler : Error → Action W A) (w w' : W) (a : A)
      → ((e : Error) (v : W) → handler e v ≡ (ok a, w') → ⊥)
      → catch m handler w ≡ (ok a, w')
      → m w ≡ (ok a, w')
  catch-own {A} m handler w w' a other h = go (m w) refl h
    where
      go : (p : Result A × W) → m w ≡ p → handled p.0 handler p.1 ≡ (ok a, w') → m w ≡ (ok a, w')
      go (ok b, v) e k = e ∙ k
      go (err x, v) e k = absurd (other x v k)
