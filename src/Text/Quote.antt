-- ===== src/Text/Quote.antt =====
-- `strconv.Quote`, which fmt's %q calls. `is_print` is unicode.IsPrint on the runes from 128 on: its
-- tables are a parameter.
pub mod Escaped
use for_visibility.Prelude.{
  ℕ, zero, suc, ◌+◌, ◌-◌, ◌*◌, ◌/◌, ◌%◌, Bool, ◌&&◌, ◌||◌, Option, none, some, List, [], ◌∷◌, ◌++◌,
  ltb, leb, ◌==◌, if◌then◌else◌, length, drop,
}
use for_visibility.Text.{Bytes}

-- a rune of more than one byte, with its encoding
pub record Rune : Type 0 where
  pub code : ℕ
  pub encoded : Bytes

abbrev pub is_tail : ℕ → Bool
is_tail b = leb 128 b && leb b 191

-- the second byte of a rune that begins with `a`
abbrev pub is_second : ℕ → ℕ → Bool
is_second a b =
    if a == 224
    then leb 160 b && leb b 191
    else if a == 237
    then leb 128 b && leb b 159
    else if a == 240
    then leb 144 b && leb b 191
    else if a == 244
    then leb 128 b && leb b 143
    else is_tail b

abbrev pub two_bytes : ℕ → Bytes → Option Rune
two_bytes a (b ∷ s) =
    if is_second a b
    then some record { code = (a - 192) * 64 + (b - 128); encoded = a ∷ b ∷ [] }
    else none
two_bytes a [] = none

abbrev pub three_bytes : ℕ → Bytes → Option Rune
three_bytes a (b ∷ c ∷ s) =
    if is_second a b && is_tail c
    then some
        record { code = (a - 224) * 4096 + (b - 128) * 64 + (c - 128); encoded = a ∷ b ∷ c ∷ [] }
    else none
three_bytes a (b ∷ []) = none
three_bytes a [] = none

abbrev pub four_bytes : ℕ → Bytes → Option Rune
four_bytes a (b ∷ c ∷ d ∷ s) =
    if is_second a b && (is_tail c && is_tail d)
    then some record {
      code = (a - 240) * 262144 + (b - 128) * 4096 + (c - 128) * 64 + (d - 128);
      encoded = a ∷ b ∷ c ∷ d ∷ [];
    }
    else none
four_bytes a (b ∷ c ∷ []) = none
four_bytes a (b ∷ []) = none
four_bytes a [] = none

-- utf8.DecodeRuneInString behind a first byte from 128 on; `none` is an encoding that is not valid
unfoldable pub decode_rune : ℕ → Bytes → Option Rune
decode_rune a s =
    if leb 194 a && leb a 223
    then two_bytes a s
    else if leb 224 a && leb a 239
    then three_bytes a s
    else if leb 240 a && leb a 244
    then four_bytes a s
    else none

-- a lower-case hex digit
abbrev pub hex_digit : ℕ → ℕ
hex_digit d = if ltb d 10 then 48 + d else 87 + d

-- the last `n` hex digits of a number
abbrev pub hex : ℕ → ℕ → Bytes
hex zero c = []
hex (suc n) c = hex n (c / 16) ++ hex_digit (c % 16) ∷ []

-- 92 is the backslash, 120 'x'
abbrev pub hex_byte : ℕ → Bytes
hex_byte c = 92 ∷ 120 ∷ hex 2 c

-- a byte below 128; the letters are a, b, t, n, v, f and r
unfoldable pub quote_ascii : ℕ → Bytes
quote_ascii c =
    if c == 34 || c == 92
    then 92 ∷ c ∷ []
    else if leb 32 c && leb c 126
    then c ∷ []
    else if c == 7
    then 92 ∷ 97 ∷ []
    else if c == 8
    then 92 ∷ 98 ∷ []
    else if c == 9
    then 92 ∷ 116 ∷ []
    else if c == 10
    then 92 ∷ 110 ∷ []
    else if c == 11
    then 92 ∷ 118 ∷ []
    else if c == 12
    then 92 ∷ 102 ∷ []
    else if c == 13
    then 92 ∷ 114 ∷ []
    else hex_byte c

-- 117 is 'u', 85 'U'
unfoldable pub quote_rune : (ℕ → Bool) → Rune → Bytes
quote_rune is_print r =
    if is_print r.code
    then r.encoded
    else if ltb r.code 65536
    then 92 ∷ 117 ∷ hex 4 r.code
    else 92 ∷ 85 ∷ hex 8 r.code

-- Each round takes a byte at least: as much fuel as bytes is enough.
unfoldable pub quote_loop : (ℕ → Bool) → ℕ → Bytes → Bytes
unfolding quote_ascii quote_rune decode_rune
quote_loop is_print zero s = []
quote_loop is_print (suc fuel) [] = []
quote_loop is_print (suc fuel) (c ∷ s) =
    let rest = quote_loop is_print fuel s in
    if ltb c 128 then quote_ascii c ++ rest else elim (decode_rune c s) [
      | none ↦ hex_byte c ++ rest
      | some r ↦ quote_rune is_print r ++ quote_loop is_print fuel (drop (length r.encoded) (c ∷ s))
    ]

unfoldable pub quote : (ℕ → Bool) → Bytes → Bytes
unfolding quote_loop
quote is_print s = 34 ∷ quote_loop is_print (length s) s ++ 34 ∷ []
