-- ===== src/Cgroup/Read.antt =====
-- The numbers that the kernel writes into its files are read back.
use for_visibility.Prelude.{
  ℕ, ◌-◌, ◌^◌, ◌<◌, ◌≡◌, refl, true, none, some, [], ◌∷◌, ◌++◌, leb, if◌then◌else◌, length, All,
  arith,
}
use for_visibility.Text.{Bytes}
use for_visibility.Text.Decimal.{itoa, value, value-itoa, IsDigit, itoa-IsDigit, itoa-nonempty}
use for_visibility.Text.Split.{trim_left, trim_right, is_space}
use for_visibility.Text.Cidr.{all_digits, parse_digits}
use for_visibility.Cgroup.{parse_uint, read_uint}

digits-All : (s : Bytes) → All IsDigit s → all_digits s ≡ true
unfolding all_digits
digits-All [] h = refl
digits-All (c ∷ s) h = ground (arith, h, digits-All s)

parse_digits-digits : (s : Bytes) → 0 < length s → All IsDigit s → parse_digits s ≡ some (value 0 s)
unfolding parse_digits
parse_digits-digits [] l h = absurd (omega arith)
parse_digits-digits (c ∷ s) l h = rw (parse_digits, digits-All (c ∷ s) h) refl

-- a line end behind digits is cut off
trim_right-digits : (s : Bytes) → All IsDigit s → trim_right is_space (s ++ 10 ∷ []) ≡ s
unfolding trim_right
trim_right-digits [] h = ground arith
trim_right-digits (c ∷ []) h = ground (arith, h)
trim_right-digits (c ∷ d ∷ s) h = rw (trim_right-digits (d ∷ s) h.1) refl

trim_left-digits :
    (s : Bytes) → All IsDigit s → 0 < length s → trim_left is_space (s ++ 10 ∷ []) ≡ s ++ 10 ∷ []
unfolding trim_left
trim_left-digits [] h l = absurd (omega arith)
trim_left-digits (c ∷ s) h l = ground (arith, h)

-- A file that holds a number and a line end is read as the number when it has at most 64 bits, and
-- not at all when it has more.
pub read_uint-itoa :
    (n : ℕ) → read_uint (some (itoa n ++ 10 ∷ [])) ≡ (if leb n (2 ^ 64 - 1) then some n else none)
unfolding read_uint parse_uint
read_uint-itoa n =
    rw
      (
        trim_left-digits (itoa n) (itoa-IsDigit n) (itoa-nonempty n),
        trim_right-digits (itoa n) (itoa-IsDigit n),
        parse_uint,
        parse_digits-digits (itoa n) (itoa-nonempty n) (itoa-IsDigit n),
        value-itoa n,
      )
      refl
