-- ===== src/Prelude/Actions.antt =====
-- Calls that act on the world and may raise. What was done before a raise stays done, so the world
-- comes back beside the error too.
use mathlib.Core.Bool.{Bool, true, false}
use ml_template.Prelude.Results.{Error, Result, ok, err}
use ml_template.Prelude.{◌≡◌, ap, refl}

abbrev pub Action {ℓ} : Type ℓ → Type ℓ → Type ℓ
Action W A = W → Result A × W

module _ {ℓ} {W : Type ℓ} where
  abbrev pub return : {A : Type ℓ} → A → Action W A
  return a w = (ok a, w)

  abbrev pub raise : {A : Type ℓ} → Error → Action W A
  raise e w = (err e, w)

  abbrev pub lift : {A : Type ℓ} → Result A → Action W A
  lift r w = (r, w)

  abbrev continue : {A B : Type ℓ} → Result A → (A → Action W B) → Action W B
  continue (ok a) f w = f a w
  continue (err e) f w = (err e, w)

  infixl 5 ◌>>=◌ ◌>>◌
  abbrev pub ◌>>=◌ : {A B : Type ℓ} → Action W A → (A → Action W B) → Action W B
  ◌>>=◌ m f w = let (r, w') = m w in continue r f w'

  abbrev pub ◌>>◌ : {A B : Type ℓ} → Action W A → Action W B → Action W B
  m >> n = m >>= λ _. n

  -- `if b: m`
  abbrev pub when : Bool → Action W (Unit {ℓ}) → Action W (Unit {ℓ})
  when true m w = m w
  when false m w = (ok tt, w)

  abbrev pub handled : {A : Type ℓ} → Result A → (Error → Action W A) → Action W A
  handled (ok a) handler w = (ok a, w)
  handled (err e) handler w = handler e w

  -- `try: m; except: handler`
  abbrev pub catch : {A : Type ℓ} → Action W A → (Error → Action W A) → Action W A
  catch m handler w = let (r, w') = m w in handled r handler w'

module _ {ℓ} {W A B : Type ℓ} where
  -- Inversion of a sequence that returned.
  pub bind-ok :
      (m : Action W A) (f : A → Action W B) (w : W) {b : B} {w' : W}
      → (m >>= f) w ≡ (ok b, w')
      → (a : A) × (v : W) × (m w ≡ (ok a, v)) × (f a v ≡ (ok b, w'))
  bind-ok m f w {b} {w'} h = go (m w) refl h
    where
      go :
          (p : Result A × W)
          → m w ≡ p
          → continue p.0 f p.1 ≡ (ok b, w')
          → (a : A) × (v : W) × (m w ≡ (ok a, v)) × (f a v ≡ (ok b, w'))
      go (ok a, v) e k = (a, v, e, k)
      go (err x, v) e k = cc

module _ {ℓ} {W A : Type ℓ} where
  pub lift-ok : (r : Result A) (w : W) {a : A} {v : W} → lift r w ≡ (ok a, v) → (r ≡ ok a) × (w ≡ v)
  lift-ok r w h = (ap (λ p. p.0) h, ap (λ p. p.1) h)

module _ {ℓ} {W A B : Type ℓ} where
  -- The same, of the result alone.
  pub bind-result :
      (m : Action W A) (f : A → Action W B) (w : W) (b : B)
      → ((m >>= f) w).0 ≡ ok b
      → (a : A) × (v : W) × (m w ≡ (ok a, v)) × ((f a v).0 ≡ ok b)
  bind-result m f w b h =
      let whole : (m >>= f) w ≡ (ok b, ((m >>= f) w).1) = (λ i. (h i, ((m >>= f) w).1)) in
      let (a, v, ran, rest) = bind-ok m f w whole in (a, v, ran, ap (λ p. p.0) rest)
