-- ===== src/Prelude/Text.antt =====
-- What the program does with texts: `strip`, `split`, `isdigit`, `int`, and membership of names.
use Prim.Native.Nat.{ℕ, suc, ◌+◌, ◌-◌, ◌*◌}
use Prim.Native.Char.{Char, code}
use Prim.Native.String.{String}
use mathlib.Core.Bool.{Bool, true, false, ◌&&◌, ◌||◌}
use mathlib.Core.List.{List, [], ◌∷◌}
use text.Mathlib.Text.{◌==◌}
use runmantle.Prelude.Tests.{leb, eqb, if◌then◌else◌}

-- The code points for which `str.isspace` holds.
unfoldable pub is_space : ℕ → Bool
is_space c =
    (leb 9 c && leb c 13)
    || (leb 28 c && leb c 32)
    || eqb c 133
    || eqb c 160
    || eqb c 5760
    || (leb 8192 c && leb c 8202)
    || (leb 8232 c && leb c 8233)
    || eqb c 8239
    || eqb c 8287
    || eqb c 12288

-- `not value.strip()`.
unfoldable pub is_blank : String → Bool
unfolding is_space
is_blank String.[] = true
is_blank (String.◌∷◌ c s) = is_space (code c) && is_blank s

-- Is it a text of ASCII digits?
unfoldable pub is_digits : String → Bool
is_digits String.[] = false
is_digits (String.◌∷◌ c String.[]) = leb 48 (code c) && leb (code c) 57
is_digits (String.◌∷◌ c (String.◌∷◌ d s)) =
    leb 48 (code c) && leb (code c) 57 && is_digits (String.◌∷◌ d s)

-- The number that ASCII digits stand for.
unfoldable pub to_int : ℕ → String → ℕ
to_int acc String.[] = acc
to_int acc (String.◌∷◌ c s) = to_int (acc * 10 + (code c - 48)) s

abbrev cons_head : Char → List String → List String
cons_head c [] = String.◌∷◌ c String.[] ∷ []
cons_head c (s ∷ ss) = String.◌∷◌ c s ∷ ss

-- `path.split(".")`.
unfoldable pub split_dots : String → List String
split_dots String.[] = "" ∷ []
split_dots (String.◌∷◌ c s) =
    let rest = split_dots s in if eqb (code c) b'.' then "" ∷ rest else cons_head c rest

-- `name in names`.
unfoldable pub contains : List String → String → Bool
contains [] n = false
contains (m ∷ ms) n = m == n || contains ms n

-- `len(text)`, in code points.
unfoldable pub text_length : String → ℕ
text_length String.[] = 0
text_length (String.◌∷◌ c s) = suc (text_length s)

-- `s <= t`, by code points.
unfoldable pub text_le : String → String → Bool
text_le String.[] t = true
text_le (String.◌∷◌ c s) String.[] = false
text_le (String.◌∷◌ c s) (String.◌∷◌ d t) =
    let rest = text_le s t in if eqb (code c) (code d) then rest else leb (code c) (code d)

unfoldable pub insert_text : String → List String → List String
unfolding text_le
insert_text s [] = s ∷ []
insert_text s (t ∷ ts) = let rest = insert_text s ts in if text_le s t then s ∷ t ∷ ts else t ∷ rest

-- `sorted(texts)`.
unfoldable pub sort_texts : List String → List String
unfolding insert_text
sort_texts [] = []
sort_texts (s ∷ ss) = insert_text s (sort_texts ss)
