-- ===== src/Legacy/Candidates/Choice.antt =====
-- Which image a reconciliation chooses.
use mathlib.Core.List.{Memᴰ}
use ml_template.Prelude.{
  List, ◌≡◌, ◌≤◌, ℕ, ◌⊎◌, inl, inr, refl, Bool-cases, ltb, arith, sym, ==_iff, ℕ_eq, ◌∷◌, Bool, [],
  filter, if◌then◌else◌, true, ◌==◌, ap,
}
use ml_template.Legacy.Types.{Release, Library}
use ml_template.Legacy.Candidates.{
  newest_of, newest_of_highest, Image, all_candidates, reconcile_candidates, highest_version,
  latest, is_earlier,
}

highest_version-le : (n : ℕ) (xs : List Release) → n ≤ highest_version n xs
unfolding highest_version
highest_version-le n [] = omega arith
highest_version-le n (c ∷ rest) = elim (Bool-cases (ltb n c.version)) [
  | inl above ↦ rw above (let more = highest_version-le c.version rest in ground arith)
  | inr below ↦ rw below (highest_version-le n rest)
]

Mem-highest_version :
    {c : Release} (n : ℕ) {xs : List Release} → Memᴰ c xs → c.version ≤ highest_version n xs
unfolding highest_version
Mem-highest_version n {xs = []} i = elim i [ ]
Mem-highest_version {c} n {xs = x ∷ rest} (Memᴰ.head e) =
    rw e (elim (Bool-cases (ltb n x.version)) [
      | inl above ↦ rw above (highest_version-le x.version rest)
      | inr below ↦ rw below (let more = highest_version-le n rest in ground arith)
    ])
Mem-highest_version n {xs = x ∷ rest} (Memᴰ.tail i) =
    Mem-highest_version (if ltb n x.version then x.version else n) i

-- The highest version is the first one or that of a member.
highest_version-cases :
    (n : ℕ) (xs : List Release)
    → (highest_version n xs ≡ n) ⊎ ((c : Release) × Memᴰ c xs × (c.version ≡ highest_version n xs))
unfolding highest_version
highest_version-cases n [] = inl refl
highest_version-cases n (x ∷ rest) = elim (Bool-cases (ltb n x.version)) [
  | inl above ↦ elim (highest_version-cases x.version rest) [
    | inl same ↦ inr (x, Memᴰ.head refl, rw (above, same) refl)
    | inr (c, i, e) ↦ inr (c, Memᴰ.tail i, rw above e)
  ]
  | inr below ↦ elim (highest_version-cases n rest) [
    | inl same ↦ inl (rw below same)
    | inr (c, i, e) ↦ inr (c, Memᴰ.tail i, rw below e)
  ]
]

skip : {x y z : Release} {ys : List Release} → Memᴰ x (y ∷ ys) → Memᴰ x (y ∷ z ∷ ys)
skip (Memᴰ.head e) = Memᴰ.head e
skip (Memᴰ.tail i) = Memᴰ.tail (Memᴰ.tail i)

latest-Mem : (best : Release) (xs : List Release) → Memᴰ (latest best xs) (best ∷ xs)
unfolding latest
latest-Mem best [] = Memᴰ.head refl
latest-Mem best (c ∷ rest) = elim (Bool-cases (is_earlier best c)) [
  | inl later ↦ rw later (Memᴰ.tail (latest-Mem c rest))
  | inr earlier ↦ rw earlier (skip (latest-Mem best rest))
]

Mem-cons :
    (p : Release → Bool) {c x : Release} {xs ys : List Release}
    → Memᴰ c (x ∷ xs)
    → p x ≡ true
    → (Memᴰ c xs → Memᴰ c ys × (p c ≡ true))
    → Memᴰ c (x ∷ ys) × (p c ≡ true)
Mem-cons p (Memᴰ.head e) hit later = (Memᴰ.head e, rw e hit)
Mem-cons p (Memᴰ.tail j) hit later = let (j', e) = later j in (Memᴰ.tail j', e)

Mem-filter :
    (p : Release → Bool) {c : Release} (xs : List Release)
    → Memᴰ c (filter p xs)
    → Memᴰ c xs × (p c ≡ true)
Mem-filter p [] i = elim i [ ]
Mem-filter p {c} (x ∷ xs) i = elim (Bool-cases (p x)) [
  | inl hit ↦ Mem-cons p (rw hit at i) hit (λ j. Mem-filter p xs j)
  | inr miss ↦ let (j, e) = Mem-filter p xs (rw miss at i) in (Memᴰ.tail j, e)
]

filter-Mem :
    (p : Release → Bool) {c : Release} {xs : List Release}
    → Memᴰ c xs
    → p c ≡ true
    → Memᴰ c (filter p xs)
filter-Mem p {xs = []} i e = elim i [ ]
filter-Mem p {c} {xs = x ∷ xs} (Memᴰ.head same) e =
    let hit : p x ≡ true = rw same at e in rw hit (Memᴰ.head same)
filter-Mem p {xs = x ∷ xs} (Memᴰ.tail i) e = elim (Bool-cases (p x)) [
  | inl hit ↦ rw hit (Memᴰ.tail (filter-Mem p i e))
  | inr miss ↦ rw miss (filter-Mem p i e)
]

abbrev Highest : List Release → Type 0
Highest candidates =
    ((candidates ≡ []) × (newest_of_highest candidates ≡ []))
    ⊎ ((c : Release) × (newest_of_highest candidates ≡ c ∷ [])
        × Memᴰ c candidates
        × ((x : Release) → Memᴰ x candidates → x.version ≤ c.version))

-- The candidates of the highest version are some.
highest-some :
    (c : Release) (others : List Release)
    → (x : Release) × Memᴰ x
        (filter (λ x. x.version == highest_version c.version others) (c ∷ others))
highest-some c others =
    let top : Release → Bool = λ x. x.version == highest_version c.version others in
    elim (highest_version-cases c.version others) [
      | inl same ↦
          (c, filter-Mem top {xs = c ∷ others} (Memᴰ.head refl) ((==_iff _ _).1 (sym same)))
      | inr (x, i, e) ↦ (x, filter-Mem top {xs = c ∷ others} (Memᴰ.tail i) ((==_iff _ _).1 e))
    ]

below-highest :
    (c : Release) (others : List Release) (x : Release)
    → Memᴰ x (c ∷ others)
    → x.version ≤ highest_version c.version others
below-highest c others x (Memᴰ.head e) = rw e (highest_version-le c.version others)
below-highest c others x (Memᴰ.tail i) = Mem-highest_version c.version i

choice-Highest : (candidates : List Release) → Highest candidates
unfolding newest_of_highest newest_of
choice-Highest [] = inl (refl, refl)
choice-Highest (c ∷ others) =
    go (filter (λ x. x.version == highest_version c.version others) (c ∷ others)) refl
  where
    go :
        (found : List Release)
        → filter (λ x. x.version == highest_version c.version others) (c ∷ others) ≡ found
        → Highest (c ∷ others)
    go [] e = let (x, i) = highest-some c others in elim (rw e at i) [ ]
    go (first ∷ choices) e =
        let i = latest-Mem first choices in
        let (j, hit) =
          Mem-filter (λ x. x.version == highest_version c.version others) (c ∷ others)
            (rw (sym e) at i) in
        let same =
          (==_iff (latest first choices).version (highest_version c.version others)).0 hit in
        inr (latest first choices, ap newest_of e, j, λ x k. rw same (below-highest c others x k))

-- Among the parsed tags the choice has the highest version; it is empty only if no tag parses.
pub reconcile_candidates-Highest :
    (lib : Library) (images : List Image)
    → ((all_candidates lib images ≡ []) × (reconcile_candidates lib images ≡ []))
      ⊎ ((c : Release) × (reconcile_candidates lib images ≡ c ∷ [])
          × Memᴰ c (all_candidates lib images)
          × ((x : Release) → Memᴰ x (all_candidates lib images) → x.version ≤ c.version))
unfolding reconcile_candidates
reconcile_candidates-Highest lib images = choice-Highest (all_candidates lib images)
