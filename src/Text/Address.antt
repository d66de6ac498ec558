-- ===== src/Text/Address.antt =====
-- `net.IP.String` for every length of the slice, and hexadecimal digits.
use for_visibility.Prelude.{
  ℕ, suc, ◌+◌, ◌*◌, ◌/◌, ◌%◌, Bool, true, ◌&&◌, List, [], ◌∷◌, ◌++◌, Option, none, some, ltb, ◌==◌,
  if◌then◌else◌, length, take, drop, get_or, ◌≡◌, refl,
}
use for_visibility.Text.Decimal.{itoa}

-- `nil` and the empty slice are `[]`.
abbrev pub Ip : Type 0
Ip = List ℕ

abbrev pub hex_digit : ℕ → ℕ
hex_digit d = if ltb d 10 then 48 + d else 87 + d

-- %x without leading zeros, for a 16-bit group
unfoldable pub hex_group : ℕ → List ℕ
hex_group g =
    let d3 = hex_digit (g / 4096 % 16) in
    let d2 = hex_digit (g / 256 % 16) in
    let d1 = hex_digit (g / 16 % 16) in
    let d0 = hex_digit (g % 16) in
    if ltb 4095 g
    then d3 ∷ d2 ∷ d1 ∷ d0 ∷ []
    else if ltb 255 g
    then d2 ∷ d1 ∷ d0 ∷ []
    else if ltb 15 g
    then d1 ∷ d0 ∷ []
    else d0 ∷ []

unfoldable pub hex_bytes : List ℕ → List ℕ
hex_bytes [] = []
hex_bytes (b ∷ bs) = hex_digit (b / 16 % 16) ∷ hex_digit (b % 16) ∷ hex_bytes bs

unfoldable pub dotted : List ℕ → List ℕ
unfolding itoa
dotted [] = []
dotted (b ∷ []) = itoa b
dotted (b ∷ c ∷ bs) = itoa b ++ 46 ∷ dotted (c ∷ bs)

-- the eight 16-bit groups
abbrev pub groups : List ℕ → List ℕ
groups (hi ∷ lo ∷ bs) = (hi * 256 + lo) ∷ groups bs
groups _ = []

unfoldable pub colons : List ℕ → List ℕ
unfolding hex_group
colons [] = []
colons (g ∷ []) = hex_group g
colons (g ∷ h ∷ gs) = hex_group g ++ 58 ∷ colons (h ∷ gs)

unfoldable pub leading_zeros : List ℕ → ℕ
leading_zeros [] = 0
leading_zeros (g ∷ gs) = let n = leading_zeros gs in if g == 0 then suc n else 0

-- The first of the longest runs of two or more zero groups, as its start and length.
unfoldable pub longest_run : ℕ → List ℕ → ℕ × ℕ → ℕ × ℕ
unfolding leading_zeros
longest_run i [] best = best
longest_run i (g ∷ gs) (start, size) =
    let n = leading_zeros (g ∷ gs) in
    longest_run (suc i) gs (if ltb 1 n && ltb size n then (i, n) else (start, size))

unfoldable pub ip6_string : List ℕ → List ℕ
unfolding colons longest_run
ip6_string gs =
    let (start, size) = longest_run 0 gs (0, 0) in
    if size == 0
    then colons gs
    else colons (take start gs) ++ 58 ∷ 58 ∷ colons (drop (start + size) gs)

-- allZero of bmp.go, and `isZeros` of the standard library
unfoldable pub all_zero : List ℕ → Bool
all_zero [] = true
all_zero (b ∷ bs) = b == 0 && all_zero bs

unfoldable pub mapped4 : Ip → Bool
mapped4 ip = all_zero (take 10 ip) && get_or ip 10 0 == 255 && get_or ip 11 0 == 255

-- net.IP.To4: a 4-byte slice, or the last four bytes of ::ffff:0:0/96; `none` is nil
unfoldable pub to4 : Ip → Option Ip
unfolding mapped4 all_zero
to4 ip =
    if length ip == 4
    then some ip
    else if length ip == 16 && mapped4 ip
    then some (drop 12 ip)
    else none

-- net.IP.String
unfoldable pub ip_string : Ip → List ℕ
unfolding to4 dotted ip6_string hex_bytes
ip_string ip = elim (to4 ip) [
  | some v4 ↦ dotted v4
  | none ↦
      if length ip == 0
      then 60 ∷ 110 ∷ 105 ∷ 108 ∷ 62 ∷ []
      else if length ip == 16
      then ip6_string (groups ip)
      else 63 ∷ hex_bytes ip
]

-- net.IP.IsUnspecified: 0.0.0.0, ::ffff:0.0.0.0 or ::
unfoldable pub is_unspecified : Ip → Bool
unfolding to4 all_zero
is_unspecified ip = elim (to4 ip) [ some v4 ↦ all_zero v4 | none ↦ length ip == 16 && all_zero ip ]

dotted_quad :
    ip_string (172 ∷ 30 ∷ 0 ∷ 11 ∷ []) ≡ 49 ∷ 55 ∷ 50 ∷ 46 ∷ 51 ∷ 48 ∷ 46 ∷ 48 ∷ 46 ∷ 49 ∷ 49 ∷ []
unfolding ip_string
dotted_quad = refl

link_local :
    ip_string (254 ∷ 128 ∷ 0 ∷ 0 ∷ 0 ∷ 0 ∷ 0 ∷ 0 ∷ 0 ∷ 0 ∷ 0 ∷ 0 ∷ 0 ∷ 0 ∷ 0 ∷ 26 ∷ [])
    ≡ 102 ∷ 101 ∷ 56 ∷ 48 ∷ 58 ∷ 58 ∷ 49 ∷ 97 ∷ []
unfolding ip_string
link_local = refl
