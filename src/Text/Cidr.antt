-- ===== src/Text/Cidr.antt =====
-- `net.ParseIP(s).To4()` and `net.ParseCIDR` of IPv4 text, with `Mask.Size` and `Contains`. Text with
-- a colon, which Go reads as IPv6, is refused.
use for_visibility.Prelude.{
  ℕ, zero, suc, ◌+◌, ◌-◌, ◌*◌, ◌/◌, ◌^◌, ◌<◌, ◌≤◌, ◌≡◌, refl, Bool, true, false, not, ◌&&◌, Option,
  none, some, List, ap, [], ◌∷◌, ◌++◌, leb, ◌==◌, if◌then◌else◌, take, drop, append_assoc, le→leb,
  Bool-cases, inl, inr, arith,
}
use for_visibility.Text.{Bytes, text}
use for_visibility.Text.Decimal.{itoa, value}
use for_visibility.Text.Address.{dotted}
use for_visibility.Text.Split.{
  has_byte, index_byte, split_on, split_on-part, split_on-last, has_byte-append, index_byte-part,
}

unfoldable pub all_digits : Bytes → Bool
all_digits [] = true
all_digits (c ∷ s) = leb 48 c && leb c 57 && all_digits s

-- decimal digits, at least one
unfoldable pub parse_digits : Bytes → Option ℕ
unfolding all_digits value
parse_digits [] = none
parse_digits (c ∷ s) = if all_digits (c ∷ s) then some (value 0 (c ∷ s)) else none

abbrev pub leading_zero : Bytes → Bool
leading_zero (c ∷ d ∷ s) = c == 48
leading_zero _ = false

-- a field of a dotted address: no leading zero, at most 255
unfoldable pub parse_octet : Bytes → Option ℕ
parse_octet s =
    if leading_zero s
    then none
    else elim (parse_digits s) [ some n ↦ if leb n 255 then some n else none | none ↦ none ]

abbrev pub with_octets : Option ℕ → Option ℕ → Option ℕ → Option ℕ → Option ℕ
with_octets (some a) (some b) (some c) (some d) = some (((a * 256 + b) * 256 + c) * 256 + d)
with_octets _ _ _ _ = none

abbrev pub four_octets : List Bytes → Option ℕ
four_octets (a ∷ b ∷ c ∷ d ∷ []) =
    with_octets (parse_octet a) (parse_octet b) (parse_octet c) (parse_octet d)
four_octets _ = none

-- net.ParseIP(s).To4(), as a number of 32 bits
unfoldable pub parse_ip4 : Bytes → Option ℕ
parse_ip4 s = four_octets (split_on 46 s)

-- the address before the mask is applied, and `Mask.Size`
pub record Cidr : Type 0 where
  pub ip : ℕ
  pub ones : ℕ

abbrev pub with_mask : Option ℕ → Option ℕ → Option Cidr
with_mask (some ip) (some n) = if leb n 32 then some record { ip = ip; ones = n } else none
with_mask _ _ = none

-- net.ParseCIDR
unfoldable pub parse_cidr : Bytes → Option Cidr
parse_cidr s = elim (index_byte 47 s) [
  | none ↦ none
  | some i ↦ with_mask (parse_ip4 (take i s)) (parse_digits (drop (suc i) s))
]

-- ipnet.Contains: the bits under the mask are equal
abbrev pub contains : Cidr → ℕ → Bool
contains c ip = c.ip / 2 ^ (32 - c.ones) == ip / 2 ^ (32 - c.ones)

abbrev pub octets_number : ℕ → ℕ → ℕ → ℕ → ℕ
octets_number a b c d = ((a * 256 + b) * 256 + c) * 256 + d

abbrev is_just : ℕ → Option ℕ → Bool
is_just n (some m) = m == n
is_just n none = false

-- what the parsers need of the text of an octet
abbrev reads_back : ℕ → Bool
reads_back n =
    not (has_byte 46 (itoa n))
    && not (has_byte 47 (itoa n))
    && is_just n (parse_octet (itoa n))
    && is_just n (parse_digits (itoa n))

-- `f` holds below `n`
all_below : ℕ → (ℕ → Bool) → Bool
all_below zero f = true
all_below (suc n) f = f n && all_below n f

all_below-lt : (n : ℕ) (f : ℕ → Bool) (k : ℕ) → all_below n f ≡ true → k < n → f k ≡ true
unfolding all_below
all_below-lt zero f k h l = absurd (omega arith)
all_below-lt (suc n) f k h l = elim (Bool-cases (k == n)) [
  | inl e ↦ ground (arith, e)
  | inr ne ↦ ground (arith, ne, all_below-lt n f k)
]

octets_read : all_below 256 reads_back ≡ true
unfolding all_below has_byte itoa parse_octet parse_digits
octets_read = refl

octet-reads_back : (n : ℕ) → n < 256 → reads_back n ≡ true
octet-reads_back n = all_below-lt 256 reads_back n octets_read

is_just-some : (n : ℕ) (o : Option ℕ) → is_just n o ≡ true → o ≡ some n
is_just-some n none h = ground arith
is_just-some n (some m) h = ap some (ground arith)

module _ (n : ℕ) (small : n < 256) where
  no_dot : has_byte 46 (itoa n) ≡ false
  no_dot = ground (arith, octet-reads_back n small)

  no_slash : has_byte 47 (itoa n) ≡ false
  no_slash = ground (arith, octet-reads_back n small)

  parse_octet-itoa : parse_octet (itoa n) ≡ some n
  parse_octet-itoa =
      is_just-some n (parse_octet (itoa n)) (ground (arith, octet-reads_back n small))

  parse_digits-itoa : parse_digits (itoa n) ≡ some n
  parse_digits-itoa =
      is_just-some n (parse_digits (itoa n)) (ground (arith, octet-reads_back n small))

slash_text : (p s : Bytes) → p ++ text "/" ++ s ≡ p ++ 47 ∷ s
unfolding text
slash_text p s = append_assoc p (text "/") s

parse_cidr-slash :
    (p s : Bytes)
    → has_byte 47 p ≡ false
    → parse_cidr (p ++ 47 ∷ s) ≡ with_mask (parse_ip4 p) (parse_digits s)
unfolding parse_cidr
parse_cidr-slash p s h =
    let (i, at_i, before, after) = index_byte-part 47 p s h in
    rw (parse_cidr, at_i, before, after) refl

module _ (a b c d : ℕ) (la : a < 256) (lb : b < 256) (lc : c < 256) (ld : d < 256) where
  dotted_parts : split_on 46 (dotted (a ∷ b ∷ c ∷ d ∷ [])) ≡ itoa a ∷ itoa b ∷ itoa c ∷ itoa d ∷ []
  unfolding dotted
  dotted_parts =
      rw
        (
          split_on-part 46 (itoa a) (dotted (b ∷ c ∷ d ∷ [])) (no_dot a la),
          split_on-part 46 (itoa b) (dotted (c ∷ d ∷ [])) (no_dot b lb),
          split_on-part 46 (itoa c) (dotted (d ∷ [])) (no_dot c lc),
          split_on-last 46 (itoa d) (no_dot d ld),
        )
        refl

  -- Go reads the dotted text of four octets back.
  pub parse_ip4-dotted : parse_ip4 (dotted (a ∷ b ∷ c ∷ d ∷ [])) ≡ some (octets_number a b c d)
  unfolding parse_ip4
  parse_ip4-dotted =
      rw
        (
          dotted_parts,
          parse_octet-itoa a la,
          parse_octet-itoa b lb,
          parse_octet-itoa c lc,
          parse_octet-itoa d ld,
        )
        refl

  dotted-no_slash : has_byte 47 (dotted (a ∷ b ∷ c ∷ d ∷ [])) ≡ false
  unfolding dotted has_byte
  dotted-no_slash =
      rw
        (
          has_byte-append 47 (itoa a) (46 ∷ dotted (b ∷ c ∷ d ∷ [])),
          has_byte-append 47 (itoa b) (46 ∷ dotted (c ∷ d ∷ [])),
          has_byte-append 47 (itoa c) (46 ∷ dotted (d ∷ [])),
          no_slash a la,
          no_slash b lb,
          no_slash c lc,
          no_slash d ld,
        )
        refl

  pub parse_cidr-dotted :
      (n : ℕ)
      → n ≤ 32
      → parse_cidr (dotted (a ∷ b ∷ c ∷ d ∷ []) ++ text "/" ++ itoa n)
        ≡ some record { ip = octets_number a b c d; ones = n }
  parse_cidr-dotted n h =
      rw
        (
          slash_text (dotted (a ∷ b ∷ c ∷ d ∷ [])) (itoa n),
          parse_cidr-slash (dotted (a ∷ b ∷ c ∷ d ∷ [])) (itoa n) dotted-no_slash,
          parse_ip4-dotted,
          parse_digits-itoa n (omega arith),
          le→leb n 32 h,
        )
        refl
