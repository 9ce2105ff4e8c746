-- ===== src/Runtime/Python.antt =====
-- `parse_python_version` of control_plane/runtime_resolver.py.
use ml_template.Prelude.{
  ℕ, Bool, true, ◌||◌, not, Option, none, some, List, [], ◌∷◌, ◌++◌, Result, ok, err, value_error,
  eqb, if◌then◌else◌, codes, is_digit, strip_prefix, break_at, any, list_beq, ◌≡◌, refl, text_loops,
  ℕ_eq, List_eq,
}
use ml_template.Release.Types.{Text}
use ml_template.Runtime.Requirements.{is_space}

skip_quote : Text → Text
skip_quote [] = []
skip_quote (c ∷ s) = if eqb c b'"' || eqb c b'\'' then s else c ∷ s

not_digit : ℕ → Bool
not_digit c = not (is_digit c)

not_space : ℕ → Bool
not_space c = not (is_space c)

-- [0-9]+ and the text behind it
number_at : Text → Option (Text × Text)
number_at s =
    let (digits, rest) = break_at not_digit s in
    if list_beq digits [] then none else some (digits, rest)

dot_at : Text → Option Text
dot_at s = strip_prefix (codes ".") s

infixl 5 ◌>>=?◌
abbrev ◌>>=?◌ : {A B : Type 0} → Option A → (A → Option B) → Option B
none >>=? f = none
some a >>=? f = f a

-- [0-9]+\.[0-9]+\.[0-9]+
version_at : Text → Option (Text × Text)
version_at s = number_at s >>=? λ (a, s1). dot_at s1 >>=? λ s2. number_at s2 >>=? λ (b, s3).
    dot_at s3 >>=? λ s4.
    number_at s4 >>=? λ (c, s5). some (a ++ (codes "." ++ (b ++ (codes "." ++ c))), s5)

-- `\s*$` of a multi-line pattern: white space up to the end of the text or of a line
ends_line : Text → Bool
ends_line s = let (space, rest) = break_at not_space s in list_beq rest [] || any (eqb b'\n') space

-- `_PYTHON` at the start of a line
python_at : Text → Option Text
python_at s = strip_prefix (codes "python:") s >>=? λ s1.
    version_at (skip_quote (break_at not_space s1).1) >>=? λ (v, s2).
    if ends_line (skip_quote s2) then some v else none

-- `_PYTHON.findall`. A match holds no line start at which another could begin, so the matches are
-- those at the line starts of the text.
python_versions : Bool → Text → List Text
python_versions at_start [] = []
python_versions at_start (c ∷ s) =
    let rest = python_versions (eqb c b'\n') s in
    if at_start then elim (python_at (c ∷ s)) [ none ↦ rest | some v ↦ v ∷ rest ] else rest

unfoldable pub parse_python_version : Text → Result Text
unfolding python_versions python_at ends_line version_at dot_at number_at not_space not_digit
    skip_quote is_space
parse_python_version text = elim (python_versions true text) [
  | [] ↦ err (value_error "python_env.yaml must contain exactly one top-level Python X.Y.Z version")
  | v ∷ rest ↦
      if list_beq rest []
      then ok v
      else err
          (value_error "python_env.yaml must contain exactly one top-level Python X.Y.Z version")
]

parse-example : parse_python_version (codes "name: x\npython: '3.12.14'\n") ≡ ok (codes "3.12.14")
unfolding parse_python_version text_loops
parse-example = refl
