-- ===== src/Text.antt =====
-- Python's `int(s)` on ASCII text: blanks around it, a sign, and digits with single underscores
-- between them. Digits of other scripts, and the limit on the length of a number, are not modelled.
-- Then `str.lstrip`.
use Prim.Native.Char.{code}
use mathlib.Core.List.{reverse}
use suno_studio.Prelude.{
  ℕ, ◌+◌, ◌-◌, ◌*◌, String, Bool, true, false, ◌&&◌, ◌||◌, Option, none, some, List, [], ◌∷◌, leb,
  eqb, if◌then◌else◌,
}
use suno_studio.Models.Values.{ℤ, pos, negsuc}

-- The code points of a text.
abbrev pub codes : String → List ℕ
codes String.[] = []
codes (String.◌∷◌ c s) = code c ∷ codes s

is_blank : ℕ → Bool
is_blank c = (leb 9 c && leb c 13) || (leb 28 c && leb c 32) || eqb c 133 || eqb c 160

is_digit : ℕ → Bool
is_digit c = leb b'0' c && leb c b'9'

drop_blanks : List ℕ → List ℕ
drop_blanks [] = []
drop_blanks (c ∷ cs) = if is_blank c then drop_blanks cs else c ∷ cs

-- s.strip()
strip : List ℕ → List ℕ
unfolding is_blank drop_blanks
strip cs = reverse (drop_blanks (reverse (drop_blanks cs)))

-- The digits that are left, where `after` says that the character before them is a digit.
digits : Bool → ℕ → List ℕ → Option ℕ
digits true acc [] = some acc
digits false acc [] = none
digits after acc (c ∷ cs) =
    let rest = digits (is_digit c) (if is_digit c then acc * 10 + (c - b'0') else acc) cs in
    if is_digit c || (eqb c b'_' && after) then rest else none

abbrev negative : ℕ → ℤ
negative n = if eqb n 0 then pos 0 else negsuc (n - 1)

abbrev signed : (ℕ → ℤ) → Option ℕ → Option ℤ
signed f none = none
signed f (some n) = some (f n)

unsigned : List ℕ → Option ℤ
unsigned [] = none
unsigned (c ∷ cs) =
    if eqb c b'-'
    then signed negative (digits false 0 cs)
    else signed pos (digits false 0 (if eqb c b'+' then cs else c ∷ cs))

-- int(s); `none` is a ValueError.
unfoldable pub parse_int : List ℕ → Option ℤ
unfolding strip is_digit digits unsigned
parse_int cs = unsigned (strip cs)

-- s.lstrip(".")
unfoldable pub lstrip_dots : String → String
lstrip_dots String.[] = ""
lstrip_dots (String.◌∷◌ c s) =
    let rest = lstrip_dots s in if eqb (code c) b'.' then rest else String.◌∷◌ c s
