-- ===== src/Common/Text.antt =====
-- Texts as the language measures and matches them, over code points.
use Prim.Native.Nat.{ℕ, ◌+◌}
use Prim.Native.Char.{code}
use Prim.Native.String.{String}
use mathlib.Core.Bool.{Bool, true, false, ◌&&◌, ◌||◌}
use mathlib.Core.List.{List, [], ◌∷◌}
use theokit_plugins.Common.Tests.{if◌then◌else◌, leb, ltb, nat_beq}

-- The code points of a text.
abbrev pub codes : String → List ℕ
codes String.[] = []
codes (String.◌∷◌ c s) = code c ∷ codes s

-- `s.length`: code points above the basic plane are two UTF-16 units.
abbrev pub units : List ℕ → ℕ
units [] = 0
units (c ∷ cs) = (if ltb c 0x10000 then 1 else 2) + units cs

abbrev pub js_length : String → ℕ
js_length s = units (codes s)

-- `TextEncoder().encode(s).length`
abbrev pub utf8_bytes : List ℕ → ℕ
utf8_bytes [] = 0
utf8_bytes (c ∷ cs) =
    (if ltb c 0x80 then 1 else if ltb c 0x800 then 2 else if ltb c 0x10000 then 3 else 4)
    + utf8_bytes cs

abbrev pub byte_length : String → ℕ
byte_length s = utf8_bytes (codes s)

abbrev pub lower : ℕ → ℕ
lower c = if leb b'A' c && leb c b'Z' then c + 32 else c

-- `text` begins with `prefix`, both as code points; the second reads ASCII letters in either case.
abbrev pub begins : List ℕ → List ℕ → Bool
begins [] cs = true
begins (p ∷ ps) [] = false
begins (p ∷ ps) (c ∷ cs) = nat_beq p c && begins ps cs

abbrev pub begins_any_case : List ℕ → List ℕ → Bool
begins_any_case [] cs = true
begins_any_case (p ∷ ps) [] = false
begins_any_case (p ∷ ps) (c ∷ cs) = nat_beq (lower p) (lower c) && begins_any_case ps cs

-- `\s`
abbrev pub is_space : ℕ → Bool
is_space c =
    (leb 9 c && leb c 13)
    || nat_beq c 32
    || nat_beq c 0xa0
    || nat_beq c 0x1680
    || (leb 0x2000 c && leb c 0x200a)
    || nat_beq c 0x2028
    || nat_beq c 0x2029
    || nat_beq c 0x202f
    || nat_beq c 0x205f
    || nat_beq c 0x3000
    || nat_beq c 0xfeff

abbrev pub skip_spaces : List ℕ → List ℕ
skip_spaces [] = []
skip_spaces (c ∷ cs) = if is_space c then skip_spaces cs else c ∷ cs
