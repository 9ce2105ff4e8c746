-- ===== src/Prelude/Text.antt =====
-- Texts as code points, for the regular expressions and the splits of the code.
use Prim.Native.Nat.{ℕ, ◌+◌, ◌-◌, ◌*◌}
use Prim.Native.Char.{code}
use Prim.Native.String.{String}
use mathlib.Core.Bool.{Bool, ◌&&◌, ◌||◌}
use mathlib.Core.List.{List, [], ◌∷◌}
use mathlib.Core.Option.{Option, none, some}
use ml_template.Prelude.Equality.{list_beq, option_beq}
use ml_template.Prelude.Tests.{leb, eqb, if◌then◌else◌}

abbrev pub codes : String → List ℕ
codes String.[] = []
codes (String.◌∷◌ c s) = code c ∷ codes s

-- [0-9]
abbrev pub is_digit : ℕ → Bool
is_digit c = leb b'0' c && leb c b'9'

-- [A-Za-z0-9]
abbrev pub is_alnum : ℕ → Bool
is_alnum c = is_digit c || (leb b'A' c && leb c b'Z') || (leb b'a' c && leb c b'z')

-- [0-9a-f]
abbrev pub is_hex : ℕ → Bool
is_hex c = is_digit c || (leb b'a' c && leb c b'f')

-- `s.removeprefix(p)` if `s` starts with `p`
unfoldable pub strip_prefix : List ℕ → List ℕ → Option (List ℕ)
strip_prefix [] s = some s
strip_prefix (p ∷ ps) [] = none
strip_prefix (p ∷ ps) (c ∷ s) = if eqb p c then strip_prefix ps s else none

-- `s.lstrip(c)` for one character
unfoldable pub lstrip : ℕ → List ℕ → List ℕ
lstrip c [] = []
lstrip c (d ∷ s) = let rest = lstrip c s in if eqb c d then rest else d ∷ s

-- The text before the first of the stops, and the text from there on.
unfoldable pub break_at : (ℕ → Bool) → List ℕ → List ℕ × List ℕ
break_at stop [] = ([], [])
break_at stop (c ∷ s) =
    let (before, rest) = break_at stop s in if stop c then ([], c ∷ s) else (c ∷ before, rest)

-- `int(s)` of a decimal text, after the digits read so far
unfoldable pub decimal : ℕ → List ℕ → ℕ
decimal n [] = n
decimal n (c ∷ s) = decimal (n * 10 + (c - 48)) s

-- Named on an `unfolding` line, this opens the loops over texts and lists.
unfoldable pub text_loops : Unit {0}
unfolding strip_prefix lstrip break_at decimal list_beq option_beq
text_loops = tt
