-- ===== src/Prelude/Lists.antt =====
-- Lists measured by native numbers, Boolean searches, and the bounded tail `(l)[-n:]` of the code.
use Prim.Native.Nat.{ℕ, zero, suc, ◌+◌, ◌-◌, ◌≤◌}
use mathlib.Core.Path.{◌≡◌, refl}
use mathlib.Core.Bool.{Bool, true, false, ◌&&◌, ◌||◌}
use mathlib.Core.List.{List, [], ◌∷◌, ◌++◌}
use mathlib.Core.Option.{Option, none, some}
use native.Mathlib.Omega.{arith}
use ml_template.Prelude.Tests.{if◌then◌else◌, Bool-cases}
use mathlib.Core.Logic.{inl, inr}

module _ {ℓ} {A : Type ℓ} where
  abbrev pub length : List A → ℕ
  length [] = 0
  length (x ∷ xs) = suc (length xs)

  abbrev pub drop : ℕ → List A → List A
  drop zero xs = xs
  drop (suc n) [] = []
  drop (suc n) (x ∷ xs) = drop n xs

  abbrev pub take : ℕ → List A → List A
  take zero xs = []
  take (suc n) [] = []
  take (suc n) (x ∷ xs) = x ∷ take n xs

  abbrev pub all : (A → Bool) → List A → Bool
  all p [] = true
  all p (x ∷ xs) = p x && all p xs

  abbrev pub any : (A → Bool) → List A → Bool
  any p [] = false
  any p (x ∷ xs) = p x || any p xs

  abbrev pub filter : (A → Bool) → List A → List A
  filter p [] = []
  filter p (x ∷ xs) = let rest = filter p xs in if p x then x ∷ rest else rest

  -- `next((x for x in l if p(x)), None)`
  abbrev pub find : (A → Bool) → List A → Option A
  find p [] = none
  find p (x ∷ xs) = if p x then some x else find p xs

  pub length-append : (xs ys : List A) → length (xs ++ ys) ≡ length xs + length ys
  length-append [] ys = omega arith
  length-append (x ∷ xs) ys = omega (arith, length-append xs ys)

  pub length-drop : (n : ℕ) (xs : List A) → length (drop n xs) ≡ length xs - n
  length-drop zero xs = omega arith
  length-drop (suc n) [] = omega arith
  length-drop (suc n) (x ∷ xs) = omega (arith, length-drop n xs)

  -- `l[-n:]`, for a positive n
  unfoldable pub last_n : ℕ → List A → List A
  last_n n xs = drop (length xs - n) xs

  pub length-last_n-le : (n : ℕ) (xs : List A) → length (last_n n xs) ≤ n
  unfolding last_n
  length-last_n-le n xs = omega (arith, length-drop (length xs - n) xs)

  -- A list within the bound is kept whole.
  pub last_n_short : (n : ℕ) (xs : List A) → length xs ≤ n → last_n n xs ≡ xs
  unfolding last_n
  last_n_short n xs h = let e : length xs - n ≡ 0 = omega arith in rw e

  pub length-filter-le : (p : A → Bool) (xs : List A) → length (filter p xs) ≤ length xs
  length-filter-le p [] = omega arith
  length-filter-le p (x ∷ xs) = ground (arith, length-filter-le p xs)

  pub find-some : (p : A → Bool) (xs : List A) {x : A} → find p xs ≡ some x → p x ≡ true
  find-some p [] h = cc
  find-some p (y ∷ xs) {x} h = ground (arith, find-some p xs {x = x})

module _ {ℓ} {A : Type ℓ} where
  find-drop-none :
      (p : A → Bool) (n : ℕ) (xs : List A) → find p xs ≡ none → find p (drop n xs) ≡ none
  find-drop-none p zero xs e = e
  find-drop-none p (suc n) [] e = refl
  find-drop-none p (suc n) (x ∷ xs) e = elim (Bool-cases (p x)) [
    | inl hit ↦ let bad = (rw hit at e) in cc
    | inr miss ↦ find-drop-none p n xs (rw miss at e)
  ]

  drop-append : (n : ℕ) (xs ys : List A) → n ≤ length xs → drop n (xs ++ ys) ≡ drop n xs ++ ys
  drop-append zero xs ys h = refl
  drop-append (suc n) [] ys h = absurd (omega arith)
  drop-append (suc n) (x ∷ xs) ys h = drop-append n xs ys (omega arith)

  find-append-none :
      (p : A → Bool) (xs ys : List A) → find p xs ≡ none → find p (xs ++ ys) ≡ find p ys
  find-append-none p [] ys e = refl
  find-append-none p (x ∷ xs) ys e = elim (Bool-cases (p x)) [
    | inl hit ↦ let bad = (rw hit at e) in cc
    | inr miss ↦ rw miss (find-append-none p xs ys (rw miss at e))
  ]

  -- The element that was put at the end of a bounded history is found there.
  pub find-last_n :
      (p : A → Bool) (n : ℕ) (xs : List A) (x : A)
      → 1 ≤ n
      → find p xs ≡ none
      → p x ≡ true
      → find p (last_n n (xs ++ x ∷ [])) ≡ some x
  unfolding last_n
  find-last_n p n xs x pos e hit =
      let k = length (xs ++ x ∷ []) - n in
      let small : k ≤ length xs = omega (arith, length-append xs (x ∷ [])) in
      rw
        (
          drop-append k xs (x ∷ []) small,
          find-append-none p (drop k xs) (x ∷ []) (find-drop-none p k xs e),
          hit,
        )
        refl
