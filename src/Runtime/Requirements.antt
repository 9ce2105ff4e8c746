-- ===== src/Runtime/Requirements.antt =====
-- `normalize_requirements` of control_plane/runtime_resolver.py: exact pins in a canonical order.
pub mod Order
pub mod Pins
use ml_template.Prelude.{
  ℕ, ◌+◌, Bool, true, false, ◌&&◌, ◌||◌, not, Option, none, some, List, [], ◌∷◌, ◌++◌, map, Result,
  ok, err, value_error, check, ◌>>=◌, ◌>>◌, leb, ltb, eqb, if◌then◌else◌, codes, is_digit, is_alnum,
  strip_prefix, break_at, all, filter, drop, list_beq, ℕ_eq, List_eq,
}
use ml_template.Release.Types.{Text}

-- the line ends of `str.splitlines`
is_line_end : ℕ → Bool
is_line_end c =
    (leb 10 c && leb c 13) || (leb 28 c && leb c 30) || eqb c 133 || eqb c 8232 || eqb c 8233

-- `\s` of a pattern over texts
unfoldable pub is_space : ℕ → Bool
is_space c =
    (leb 9 c && leb c 13)
    || (leb 28 c && leb c 32)
    || eqb c 133
    || eqb c 160
    || eqb c 5760
    || (leb 8192 c && leb c 8202)
    || eqb c 8232
    || eqb c 8233
    || eqb c 8239
    || eqb c 8287
    || eqb c 12288

-- `text.splitlines()`; "\r\n" leaves one empty line more, which is passed over below
pub lines_from : Text → Text → List Text
lines_from line [] = line ∷ []
lines_from line (c ∷ s) =
    let rest = lines_from [] s in
    let more = lines_from (line ++ c ∷ []) s in if is_line_end c then line ∷ rest else more

-- `re.sub(r"\s+", "", original.split("#", 1)[0].strip())`
pub compact : Text → Text
unfolding is_space
compact line = filter (λ c. not (is_space c)) (break_at (eqb b'#') line).0

is_separator : ℕ → Bool
is_separator c = eqb c b'-' || eqb c b'_' || eqb c b'.'

lower : ℕ → ℕ
lower c = if leb b'A' c && leb c b'Z' then c + 32 else c

-- `_normalize_name`; the flag says that a run of separators has been replaced
normalize_from : Bool → Text → Text
normalize_from in_run [] = []
normalize_from in_run (c ∷ s) =
    let rest = normalize_from (is_separator c) s in
    if is_separator c then (if in_run then rest else b'-' ∷ rest) else lower c ∷ rest

pub normalize_name : Text → Text
normalize_name = normalize_from false

-- [A-Za-z0-9][A-Za-z0-9._-]*
is_name : Text → Bool
is_name [] = false
is_name (c ∷ s) = is_alnum c && all (λ d. is_alnum d || is_separator d) s

-- [0-9][A-Za-z0-9.!+_-]*
is_pin_version : Text → Bool
is_pin_version [] = false
is_pin_version (c ∷ s) =
    is_digit c && all (λ d. is_alnum d || is_separator d || eqb d b'!' || eqb d b'+') s

-- `_EXACT_PIN.fullmatch`
pub exact_pin : Text → Option (Text × Text)
exact_pin line =
    let (name, tail) = break_at (eqb b'=') line in
    elim (strip_prefix (codes "==") tail) [
      | none ↦ none
      | some version ↦ if is_name name && is_pin_version version then some (name, version) else none
    ]

-- The order of `sorted` on texts.
unfoldable pub text_ltb : Text → Text → Bool
text_ltb [] [] = false
text_ltb [] (d ∷ t) = true
text_ltb (c ∷ s) [] = false
text_ltb (c ∷ s) (d ∷ t) = ltb c d || (eqb c d && text_ltb s t)

abbrev pub Pins : Type 0
Pins = List (Text × Text)

unfoldable pub pinned : Text → Pins → Option Text
pinned name [] = none
pinned name ((n, v) ∷ pins) = if list_beq n name then some v else pinned name pins

-- `pins[name] = version` of a new name, kept in the order of `sorted(pins)`
pub insert_pin : Text → Text → Pins → Pins
insert_pin name version [] = (name, version) ∷ []
insert_pin name version ((n, v) ∷ pins) =
    if text_ltb name n
    then (name, version) ∷ (n, v) ∷ pins
    else (n, v) ∷ insert_pin name version pins

-- The body of the loop: an equal pin again changes nothing, another one is refused.
add_pin : Text → Text → Pins → Result Pins
add_pin name version pins = elim (pinned name pins) [
  | none ↦ ok (insert_pin name version pins)
  | some v ↦ check (list_beq v version) (value_error "Conflicting exact pins") >> ok pins
]

add_lines : List Text → Pins → Result Pins
add_lines [] pins = ok pins
add_lines (original ∷ rest) pins =
    let line = compact original in
    if list_beq line [] then add_lines rest pins else elim (exact_pin line) [
      | none ↦ err (value_error "Unsupported requirement")
      | some (name, version) ↦ do
        next ← add_pin (normalize_name name) version pins
        add_lines rest next
    ]

abbrev pub pin_text : Text × Text → Text
pin_text (name, version) = name ++ (codes "==" ++ version)

unfoldable pub normalize_requirements : Text → Result (List Text)
unfolding lines_from add_lines add_pin insert_pin exact_pin compact normalize_name normalize_from
    lower is_name is_pin_version is_separator is_line_end
normalize_requirements text = do
  pins ← add_lines (lines_from [] text) []
  check (not (list_beq (map pin_text pins) []))
      (value_error "Artifact requirements.txt contains no runtime dependencies")
  ok (map pin_text pins)
