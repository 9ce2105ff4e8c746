-- ===== src/Runtime/Requirements/Pins.antt =====
-- What `normalize_requirements` returns.
use ml_template.Runtime.Requirements.{
  Pins, pinned, insert_pin, add_pin, add_lines, compact, exact_pin, normalize_name, pin_text,
  lines_from, normalize_requirements,
}
use ml_template.Runtime.Requirements.Order.{
  IsSorted, insert_pin-IsSorted, pinned-insert_pin, pinned-insert_pin_other,
}
use ml_template.Release.Types.{Text}
use ml_template.Prelude.{
  [], ◌∷◌, ◌≡◌, ◌≢◌, Bool-cases, inl, inr, refl, List, list_beq, list_beq_iff, List_eq, ℕ_eq, some,
  none, ok, check, check-ok, value_error, ◌>>=◌, ◌>>◌, >>=-eq-ok, ok-injective, Option-cases, ◌⊎◌,
  sym, ap, ◌∙◌, not, map, subst,
}

-- The line is a pin of this version, under this normalized name.
abbrev pub Names : Text → Text → Text → Type 0
Names line n v =
    (name : Text) × (exact_pin (compact line) ≡ some (name, v)) × (normalize_name name ≡ n)

-- Every line is blank or a pin, and its version is the one that is kept for its name.
abbrev pub Covers : List Text → Pins → Type 0
Covers [] pins = Unit
Covers (line ∷ lines) pins =
    ((compact line ≡ []) ⊎ (n : Text) × (v : Text) × Names line n v × (pinned n pins ≡ some v))
    × Covers lines pins

-- A line pins the name to the version.
abbrev pub StandsIn : List Text → Text → Text → Type 0
StandsIn [] n v = ⊥
StandsIn (line ∷ lines) n v = Names line n v ⊎ StandsIn lines n v

-- From the pins `old` to `new`.
record Added (lines : List Text) (old new : Pins) : Type 0 where
  sorted : IsSorted old → IsSorted new
  keeps : (n v : Text) → pinned n old ≡ some v → pinned n new ≡ some v
  covers : Covers lines new
  only : (n v : Text) → pinned n new ≡ some v → (pinned n old ≡ some v) ⊎ StandsIn lines n v

-- A pin that is added stands, and nothing else changes.
add_pin-cases :
    (name version : Text) (old : Pins) {new : Pins}
    → add_pin name version old ≡ ok new
    → (IsSorted old → IsSorted new)
      × (pinned name new ≡ some version)
      × ((n : Text) → n ≢ name → pinned n new ≡ pinned n old)
      × ((pinned name old ≡ none) ⊎ (pinned name old ≡ some version))
unfolding add_pin
add_pin-cases name version old {new} e = elim (Option-cases (pinned name old)) [
  | inl fresh ↦
      let same : insert_pin name version old ≡ new = ok-injective (rw (add_pin, fresh) at e) in
      (
        λ k. rw⁻¹ same (insert_pin-IsSorted name version old fresh k),
        rw⁻¹ same (pinned-insert_pin name version old fresh),
        λ n other. rw⁻¹ same (pinned-insert_pin_other name version old n other),
        inl fresh,
      )
  | inr (v, there) ↦
      let checked : (check (list_beq v version) (value_error "Conflicting exact pins") >> ok old)
          ≡ ok new =
        rw (add_pin, there) at e in
      let (u, passed, e1) = >>=-eq-ok (check (list_beq v version) _) _ checked in
      let version_same : v ≡ version = (list_beq_iff v version).0 (check-ok _ _ passed) in
      let same : old ≡ new = ok-injective e1 in
      let is : pinned name old ≡ some version = there ∙ ap some version_same in
      (λ k. rw⁻¹ same k, rw⁻¹ same is, λ n other. rw⁻¹ same refl, inr is)
]

add_pin-keeps :
    (name version : Text) (old : Pins) {new : Pins} (n v : Text)
    → add_pin name version old ≡ ok new
    → pinned n old ≡ some v
    → pinned n new ≡ some v
add_pin-keeps name version old {new} n v e there =
    let (sorted, stands, others, was) = add_pin-cases name version old e in
    elim (Bool-cases (list_beq n name)) [
      | inl hit ↦
          let same : n ≡ name = (list_beq_iff n name).0 hit in
          let is : pinned name old ≡ some v = rw same at there in
          elim was [
            | inl missing ↦ let bad : none ≡ some v = sym missing ∙ is in cc
            | inr known ↦ rw same (stands ∙ (sym known ∙ is))
          ]
      | inr miss ↦ others n (λ s. let hit = (list_beq_iff n name).1 s in cc) ∙ there
    ]

add_pin-only :
    (name version : Text) (old : Pins) {new : Pins} (n v : Text)
    → add_pin name version old ≡ ok new
    → pinned n new ≡ some v
    → (pinned n old ≡ some v) ⊎ ((name ≡ n) × (version ≡ v))
add_pin-only name version old {new} n v e there =
    let (sorted, stands, others, was) = add_pin-cases name version old e in
    elim (Bool-cases (list_beq n name)) [
      | inl hit ↦
          let same : n ≡ name = (list_beq_iff n name).0 hit in
          let is : pinned name new ≡ some v = rw same at there in
          let both : some version ≡ some v = sym stands ∙ is in inr (sym same, cc)
      | inr miss ↦ inl (sym (others n (λ s. let hit = (list_beq_iff n name).1 s in cc)) ∙ there)
    ]

Added-blank :
    (line : Text) (lines : List Text) (old new : Pins)
    → compact line ≡ []
    → Added lines old new
    → Added (line ∷ lines) old new
Added-blank line lines old new blank r = record {
  sorted = r.sorted;
  keeps = r.keeps;
  covers = (inl blank, r.covers);
  only = λ n v k. elim (r.only n v k) [ inl there ↦ inl there | inr below ↦ inr (inr below) ];
}

Added-pin :
    (line name version : Text) (lines : List Text) (old next new : Pins)
    → exact_pin (compact line) ≡ some (name, version)
    → add_pin (normalize_name name) version old ≡ ok next
    → Added lines next new
    → Added (line ∷ lines) old new
Added-pin line name version lines old next new pin e r =
    let (sorted, stands, others, was) = add_pin-cases (normalize_name name) version old e in
    record {
      sorted = λ k. r.sorted (sorted k);
      keeps = λ n v k. r.keeps n v (add_pin-keeps (normalize_name name) version old n v e k);
      covers = (
        inr (
          normalize_name name,
          version,
          (name, pin, refl),
          r.keeps (normalize_name name) version stands,
        ),
        r.covers,
      );
      only = λ n v k. elim (r.only n v k) [
        | inl there ↦ elim (add_pin-only (normalize_name name) version old n v e there) [
          | inl before ↦ inl before
          | inr (is, of) ↦ inr (inl (name, pin ∙ ap (λ x. some (name, x)) of, is))
        ]
        | inr below ↦ inr (inr below)
      ];
    }

add_lines-Added :
    (lines : List Text) (old : Pins) {new : Pins}
    → add_lines lines old ≡ ok new
    → Added lines old new
unfolding add_lines
add_lines-Added [] old e =
    subst (Added [] old) (ok-injective e)
      (record { sorted = λ k. k; keeps = λ n v k. k; covers = tt; only = λ n v k. inl k })
add_lines-Added (line ∷ rest) old {new} e = elim (Bool-cases (list_beq (compact line) [])) [
  | inl blank ↦
      Added-blank line rest old new ((list_beq_iff (compact line) []).0 blank)
        (add_lines-Added rest old (rw (add_lines, blank) at e))
  | inr ink ↦ elim (Option-cases (exact_pin (compact line))) [
    | inl refused ↦ let bad = (rw (add_lines, ink, refused) at e) in cc
    | inr ((name, version), pin) ↦
        let chained : (add_pin (normalize_name name) version old >>= λ next. add_lines rest next)
            ≡ ok new =
          rw (add_lines, ink, pin) at e in
        let (next, added, e1) =
          >>=-eq-ok (add_pin (normalize_name name) version old) (λ next. add_lines rest next)
            chained in
        Added-pin line name version rest old next new pin added (add_lines-Added rest next e1)
  ]
]

-- The requirements that are accepted are the texts of pins that are sorted by their normalized
-- names, each name once, and not empty: every line is blank or a pin that is kept, and every pin
-- that is kept stands in a line.
pub normalize_requirements-IsSorted :
    (text : Text) {requirements : List Text}
    → normalize_requirements text ≡ ok requirements
    → (pins : Pins) × (requirements ≡ map pin_text pins)
      × (requirements ≢ [])
      × IsSorted pins
      × Covers (lines_from [] text) pins
      × ((n v : Text) → pinned n pins ≡ some v → StandsIn (lines_from [] text) n v)
unfolding normalize_requirements pinned
normalize_requirements-IsSorted text {requirements} e =
    let (pins, added, e1) = >>=-eq-ok (add_lines (lines_from [] text) []) _ e in
    let (u, some_pin, e2) =
      >>=-eq-ok (check (not (list_beq (map pin_text pins) [])) (value_error _)) _ e1 in
    let is : requirements ≡ map pin_text pins = sym (ok-injective e2) in
    let r = add_lines-Added (lines_from [] text) [] added in
    (
      pins,
      is,
      (λ h.
          let empty = (list_beq_iff (map pin_text pins) []).1 (sym is ∙ h) in
          let test = check-ok (not (list_beq (map pin_text pins) [])) _ some_pin in cc),
      r.sorted tt,
      r.covers,
      λ n v k. elim (r.only n v k) [ inl none_yet ↦ cc | inr stands ↦ stands ],
    )
