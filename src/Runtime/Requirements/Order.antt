-- ===== src/Runtime/Requirements/Order.antt =====
-- The order of the pins of `normalize_requirements`.
use ml_template.Runtime.Requirements.{text_ltb, Pins, pinned, insert_pin}
use ml_template.Release.Types.{Text}
use ml_template.Prelude.{
  [], ◌∷◌, ◌≡◌, ◌≢◌, true, false, arith, Bool-cases, inl, inr, refl, list_beq, list_beq_iff,
  List_eq, ℕ_eq, some, none, sym,
}

-- The name is before every name of the pins.
abbrev pub Before : Text → Pins → Type 0
Before name [] = Unit
Before name ((n, v) ∷ pins) = (text_ltb name n ≡ true) × Before name pins

-- Every name is before the later ones, so that it stands once.
abbrev pub IsSorted : Pins → Type 0
IsSorted [] = Unit
IsSorted ((n, v) ∷ pins) = Before n pins × IsSorted pins

text_ltb_trans : (a b c : Text) → text_ltb a b ≡ true → text_ltb b c ≡ true → text_ltb a c ≡ true
unfolding text_ltb
text_ltb_trans [] [] c h k = cc
text_ltb_trans [] (y ∷ b) [] h k = cc
text_ltb_trans [] (y ∷ b) (z ∷ c) h k = refl
text_ltb_trans (x ∷ a) [] c h k = cc
text_ltb_trans (x ∷ a) (y ∷ b) [] h k = cc
text_ltb_trans (x ∷ a) (y ∷ b) (z ∷ c) h k = ground (arith, text_ltb_trans a b c)

text_ltb-total : (a b : Text) → text_ltb a b ≡ false → a ≢ b → text_ltb b a ≡ true
unfolding text_ltb
text_ltb-total [] [] h other = absurd (other refl)
text_ltb-total [] (y ∷ b) h other = cc
text_ltb-total (x ∷ a) [] h other = refl
text_ltb-total (x ∷ a) (y ∷ b) h other =
    let tails : x ≡ y → a ≢ b = (λ e k. other (rw (e, k) refl)) in
    ground (arith, text_ltb-total a b)

Before-trans : (a b : Text) (pins : Pins) → text_ltb a b ≡ true → Before b pins → Before a pins
Before-trans a b [] h k = tt
Before-trans a b ((n, v) ∷ pins) h k = (text_ltb_trans a b n h k.0, Before-trans a b pins h k.1)

Before-insert_pin :
    (a name version : Text) (pins : Pins)
    → text_ltb a name ≡ true
    → Before a pins
    → Before a (insert_pin name version pins)
unfolding insert_pin
Before-insert_pin a name version [] h k = (h, tt)
Before-insert_pin a name version ((n, v) ∷ pins) h k = elim (Bool-cases (text_ltb name n)) [
  | inl first ↦ rw first (h, k)
  | inr later ↦ rw later (k.0, Before-insert_pin a name version pins h k.1)
]

-- A new name is inserted at its place.
pub insert_pin-IsSorted :
    (name version : Text) (pins : Pins)
    → pinned name pins ≡ none
    → IsSorted pins
    → IsSorted (insert_pin name version pins)
unfolding insert_pin pinned
insert_pin-IsSorted name version [] new sorted = (tt, tt)
insert_pin-IsSorted name version ((n, v) ∷ pins) new sorted = elim (Bool-cases (list_beq n name)) [
  | inl same ↦ let bad : some v ≡ none = rw same at new in cc
  | inr other ↦ elim (Bool-cases (text_ltb name n)) [
    | inl first ↦ rw first ((first, Before-trans name n pins first sorted.0), sorted)
    | inr later ↦
        let differ : name ≢ n = (λ e. let equal = (list_beq_iff n name).1 (sym e) in cc) in
        rw later (
          Before-insert_pin n name version pins (text_ltb-total name n later differ) sorted.0,
          insert_pin-IsSorted name version pins (rw other at new) sorted.1,
        )
  ]
]

list_beq_refl : (a : Text) → list_beq a a ≡ true
list_beq_refl a = (list_beq_iff a a).1 refl

list_beq-other : (a b : Text) → a ≢ b → list_beq a b ≡ false
list_beq-other a b other = elim (Bool-cases (list_beq a b)) [
  | inl same ↦ absurd (other ((list_beq_iff a b).0 same))
  | inr differ ↦ differ
]

-- A new name is pinned by its insertion.
pub pinned-insert_pin :
    (name version : Text) (pins : Pins)
    → pinned name pins ≡ none
    → pinned name (insert_pin name version pins) ≡ some version
unfolding insert_pin pinned
pinned-insert_pin name version [] new = rw (list_beq_refl name) refl
pinned-insert_pin name version ((n, v) ∷ pins) new = elim (Bool-cases (list_beq n name)) [
  | inl same ↦ let bad : some v ≡ none = rw same at new in cc
  | inr other ↦ elim (Bool-cases (text_ltb name n)) [
    | inl first ↦ rw (first, list_beq_refl name) refl
    | inr later ↦ rw (later, other) (pinned-insert_pin name version pins (rw other at new))
  ]
]

-- The other names are pinned as they were.
pub pinned-insert_pin_other :
    (name version : Text) (pins : Pins) (n : Text)
    → n ≢ name
    → pinned n (insert_pin name version pins) ≡ pinned n pins
unfolding insert_pin pinned
pinned-insert_pin_other name version [] n other =
    rw (list_beq-other name n (λ e. other (sym e))) refl
pinned-insert_pin_other name version ((m, v) ∷ pins) n other = elim (Bool-cases (text_ltb name m)) [
  | inl first ↦ rw (first, list_beq-other name n (λ e. other (sym e))) refl
  | inr later ↦ elim (Bool-cases (list_beq m n)) [
    | inl same ↦ rw (later, same) refl
    | inr differ ↦ rw (later, differ) (pinned-insert_pin_other name version pins n other)
  ]
]
