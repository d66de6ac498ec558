-- ===== src/Text/Decimal.antt =====
-- `strconv.Itoa` and `strconv.FormatUint(n, 10)` of a number that is not negative: the digits are
-- read back as the number, so different numbers have different texts.
use for_visibility.Prelude.{
  ℕ, zero, suc, ◌+◌, ◌-◌, ◌*◌, ◌/◌, ◌%◌, ◌<◌, ◌≡◌, sym, ap, ◌∙◌, [], ◌∷◌, List, ltb, arith,
  if◌then◌else◌, if-cases, ltb→lt, length, All, ◌≤◌,
}

abbrev pub digit : ℕ → ℕ
digit d = 48 + d

-- Each round takes the last digit; `n < fuel` is enough.
itoa_loop : ℕ → ℕ → List ℕ → List ℕ
itoa_loop zero n out = out
itoa_loop (suc fuel) n out =
    let rest = itoa_loop fuel (n / 10) (digit (n % 10) ∷ out) in
    if ltb n 10 then digit n ∷ out else rest

unfoldable pub itoa : ℕ → List ℕ
unfolding itoa_loop
itoa n = itoa_loop (suc n) n []

-- The number that digits spell behind `acc`.
unfoldable pub value : ℕ → List ℕ → ℕ
value acc [] = acc
value acc (c ∷ s) = value (acc * 10 + (c - 48)) s

value-itoa_loop :
    (fuel n : ℕ) (out : List ℕ) → n < fuel → value 0 (itoa_loop fuel n out) ≡ value n out
unfolding itoa_loop value
value-itoa_loop zero n out h = elim h [ ]
value-itoa_loop (suc fuel) n out h = ground (
  arith,
  value-itoa_loop fuel (n / 10) (digit (n % 10) ∷ out),
  ap (λ (m : ℕ). value m out) (last_digit n),
)
  where
    last_digit : (n : ℕ) → n / 10 * 10 + (48 + n % 10 - 48) ≡ n
    last_digit n = omega arith

-- The digits of a number are read back as that number.
pub value-itoa : (n : ℕ) → value 0 (itoa n) ≡ n
unfolding itoa value
value-itoa n = value-itoa_loop (suc n) n [] (omega arith)

-- Different numbers have different texts.
pub itoa-injective : (m n : ℕ) → itoa m ≡ itoa n → m ≡ n
itoa-injective m n e = sym (value-itoa m) ∙ ap (value 0) e ∙ value-itoa n

abbrev pub IsDigit : ℕ → Type 0
IsDigit c = (48 ≤ c) × (c ≤ 57)

itoa_loop-IsDigit :
    (fuel n : ℕ) (out : List ℕ) → All IsDigit out → All IsDigit (itoa_loop fuel n out)
unfolding itoa_loop
itoa_loop-IsDigit zero n out h = h
itoa_loop-IsDigit (suc fuel) n out h =
    if-cases (All IsDigit) (ltb n 10) _ _
      (λ small. ((omega arith, omega (arith, ltb→lt n 10 small)), h))
      (λ _. itoa_loop-IsDigit fuel (n / 10) (digit (n % 10) ∷ out) ((omega arith, omega arith), h))

itoa_loop-nonempty : (fuel n c : ℕ) (out : List ℕ) → 0 < length (itoa_loop fuel n (c ∷ out))
unfolding itoa_loop
itoa_loop-nonempty zero n c out = omega arith
itoa_loop-nonempty (suc fuel) n c out =
    if-cases (λ s. 0 < length s) (ltb n 10) (digit n ∷ c ∷ out)
      (itoa_loop fuel (n / 10) (digit (n % 10) ∷ c ∷ out)) (λ _. omega arith)
      (λ _. itoa_loop-nonempty fuel (n / 10) (digit (n % 10)) (c ∷ out))

-- A text of a number is decimal digits, at least one.
pub itoa-IsDigit : (n : ℕ) → All IsDigit (itoa n)
unfolding itoa
itoa-IsDigit n = itoa_loop-IsDigit (suc n) n [] tt

pub itoa-nonempty : (n : ℕ) → 0 < length (itoa n)
unfolding itoa itoa_loop
itoa-nonempty n =
    if-cases (λ s. 0 < length s) (ltb n 10) (digit n ∷ [])
      (itoa_loop n (n / 10) (digit (n % 10) ∷ [])) (λ _. omega arith)
      (λ _. itoa_loop-nonempty n (n / 10) (digit (n % 10)) [])
