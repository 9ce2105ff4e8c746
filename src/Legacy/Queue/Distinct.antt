-- ===== src/Legacy/Queue/Distinct.antt =====
-- Lists of candidates in which no digest stands twice.
use ml_template.Legacy.Types.{Release}
use ml_template.Legacy.Queue.{holds}
use ml_template.Prelude.{
  List, Bool, ◌≤◌, ◌≡◌, true, length, refl, ==_iff, String, and_iff, Bool-cases, arith, inl, inr,
  ◌∷◌, not, false, [], filter, ◌||◌, ◌==◌, sym, ◌&&◌, ◌++◌, String_eq,
}

unfoldable pub is_distinct : List Release → Bool
is_distinct [] = true
is_distinct (c ∷ rest) = not (holds c.digest rest) && is_distinct rest

or_false : (b : Bool) → (b || false) ≡ b
or_false true = refl
or_false false = refl

same_sym : (a b : String) → (a == b) ≡ true → (b == a) ≡ true
same_sym a b h = (==_iff b a).1 (sym ((==_iff a b).0 h))

other_sym : (a b : String) → (a == b) ≡ false → (b == a) ≡ false
other_sym a b h = elim (Bool-cases (b == a)) [
  | inl same ↦ let bad = same_sym b a same in cc
  | inr other ↦ other
]

pub negated : (b : Bool) → not b ≡ true → b ≡ false
negated true h = cc
negated false h = refl

or-false : (p q : Bool) → (p || q) ≡ false → (p ≡ false) × (q ≡ false)
or-false p q h = ground arith

holds-append-false :
    (d : String) (xs : List Release) (c : Release)
    → holds d xs ≡ false
    → (c.digest == d) ≡ false
    → holds d (xs ++ c ∷ []) ≡ false
unfolding holds
holds-append-false d [] c h e = rw e refl
holds-append-false d (x ∷ xs) c h e =
    let (here, there) = or-false (x.digest == d) (holds d xs) h in
    rw (here, holds-append-false d xs c there e) refl

pub is_distinct-append :
    (xs : List Release) (c : Release)
    → is_distinct xs ≡ true
    → holds c.digest xs ≡ false
    → is_distinct (xs ++ c ∷ []) ≡ true
unfolding is_distinct holds
is_distinct-append [] c h e = refl
is_distinct-append (x ∷ xs) c h e =
    let (here, there) = or-false (x.digest == c.digest) (holds c.digest xs) e in
    let (fresh, rest) = (and_iff (not (holds x.digest xs)) (is_distinct xs)).0 h in
    let absent : holds x.digest xs ≡ false = ground arith in
    rw
      (
        holds-append-false x.digest xs c absent (other_sym x.digest c.digest here),
        is_distinct-append xs c rest there,
      )
      refl

-- What a sublist keeps.
pub data Sub : List Release → List Release → Type 0 where
  none_left : Sub [] []
  kept : {xs ys : List Release} (x : Release) → Sub xs ys → Sub (x ∷ xs) (x ∷ ys)
  dropped : {xs ys : List Release} (x : Release) → Sub xs ys → Sub xs (x ∷ ys)

pub Sub-length : {xs ys : List Release} → Sub xs ys → length xs ≤ length ys
Sub-length none_left = omega arith
Sub-length (kept x s) = omega (arith, Sub-length s)
Sub-length (dropped x s) = omega (arith, Sub-length s)

Sub-holds :
    {xs ys : List Release} (d : String) → Sub xs ys → holds d ys ≡ false → holds d xs ≡ false
unfolding holds
Sub-holds d none_left h = refl
Sub-holds {ys = y ∷ ys} d (kept x s) h =
    let (here, there) = or-false (x.digest == d) (holds d ys) h in
    rw (here, Sub-holds d s there) refl
Sub-holds {ys = y ∷ ys} d (dropped x s) h =
    let (here, there) = or-false (x.digest == d) (holds d ys) h in Sub-holds d s there

pub Sub-is_distinct :
    {xs ys : List Release} → Sub xs ys → is_distinct ys ≡ true → is_distinct xs ≡ true
unfolding is_distinct
Sub-is_distinct none_left h = refl
Sub-is_distinct (kept x s) h =
    let (fresh, rest) = (and_iff _ _).0 h in
    rw (Sub-holds x.digest s (negated _ fresh), Sub-is_distinct s rest) refl
Sub-is_distinct (dropped x s) h = let (fresh, rest) = (and_iff _ _).0 h in Sub-is_distinct s rest

pub Sub-refl : (xs : List Release) → Sub xs xs
Sub-refl [] = none_left
Sub-refl (x ∷ xs) = kept x (Sub-refl xs)

pub Sub-trans : {xs ys zs : List Release} → Sub xs ys → Sub ys zs → Sub xs zs
Sub-trans s none_left = s
Sub-trans (kept x s) (kept _ t) = kept x (Sub-trans s t)
Sub-trans (dropped x s) (kept _ t) = dropped x (Sub-trans s t)
Sub-trans s (dropped x t) = dropped x (Sub-trans s t)

pub filter-Sub : (p : Release → Bool) (xs : List Release) → Sub (filter p xs) xs
filter-Sub p [] = none_left
filter-Sub p (x ∷ xs) = elim (Bool-cases (p x)) [
  | inl hit ↦ rw hit (kept x (filter-Sub p xs))
  | inr miss ↦ rw miss (dropped x (filter-Sub p xs))
]
