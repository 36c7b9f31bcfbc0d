-- ===== src/Text/Defs.antt =====
-- Rust strings as lists of Unicode scalar values: `str::len`, which counts UTF-8 bytes, `str::trim`,
-- and `str::starts_with` at a character.
use oysterpack.Prelude.{
  ℕ, ◌+◌, Bool, false, ◌||◌, ◌&&◌, List, [], ◌∷◌, ltb, leb, if◌then◌else◌, ◌==◌, nat_eq,
}
use mathlib.Core.List.{reverse}
use Prim.Native.Char.{code}
use Prim.Native.String.{String}

abbrev pub Str : Type 0
Str = List ℕ

-- The code points of a literal.
abbrev pub codes : String → Str
codes String.[] = []
codes (String.◌∷◌ c s) = code c ∷ codes s

-- The UTF-8 width of a scalar value.
abbrev pub utf8_width : ℕ → ℕ
utf8_width c = if ltb c 0x80 then 1 else if ltb c 0x800 then 2 else if ltb c 0x10000 then 3 else 4

-- `str::len`.
abbrev pub str_len : Str → ℕ
str_len [] = 0
str_len (c ∷ s) = utf8_width c + str_len s

-- `char::is_whitespace`: the code points with the property White_Space.
unfoldable pub is_whitespace : ℕ → Bool
is_whitespace c =
    (leb 0x09 c && leb c 0x0d)
    || c == 0x20
    || c == 0x85
    || c == 0xa0
    || c == 0x1680
    || (leb 0x2000 c && leb c 0x200a)
    || c == 0x2028
    || c == 0x2029
    || c == 0x202f
    || c == 0x205f
    || c == 0x3000

-- `str::trim_start`.
unfoldable pub trim_start : Str → Str
trim_start [] = []
trim_start (c ∷ s) = let rest = trim_start s in if is_whitespace c then rest else c ∷ s

-- `str::trim`.
unfoldable pub trim : Str → Str
trim s = reverse (trim_start (reverse (trim_start s)))

-- `str::starts_with` with a `char`.
abbrev pub starts_with : ℕ → Str → Bool
starts_with c [] = false
starts_with c (d ∷ s) = c == d
