-- ===== src/Text.antt =====
-- Go's strings and byte slices: a string is the list of its bytes. Of the standard library, what
-- the ingesters call: `==`, `strconv.Itoa`/`FormatUint`, `strings.Join`, and `net.IP.String`.
pub mod Decimal
pub mod Address
pub mod Split
pub mod Cidr
pub mod Quote
use Prim.Native.Char.{code}
use Prim.Native.String.{String}
use for_visibility.Prelude.{
  ℕ, ◌≡◌, refl, ◌↔◌, Bool, true, false, ◌&&◌, ◌||◌, ltb, List, [], ◌∷◌, ◌++◌, ◌==◌, arith,
}
use for_visibility.Prelude.Assoc.{Eq}

abbrev pub Bytes : Type 0
Bytes = List ℕ

-- The bytes of an ASCII literal.
unfoldable pub text : String → Bytes
text String.[] = []
text (String.◌∷◌ c s) = code c ∷ text s

unfoldable pub bytes_beq : Bytes → Bytes → Bool
bytes_beq [] [] = true
bytes_beq [] (y ∷ ys) = false
bytes_beq (x ∷ xs) [] = false
bytes_beq (x ∷ xs) (y ∷ ys) = (x == y) && bytes_beq xs ys

-- a < b
unfoldable pub bytes_ltb : Bytes → Bytes → Bool
bytes_ltb a [] = false
bytes_ltb [] (y ∷ ys) = true
bytes_ltb (x ∷ xs) (y ∷ ys) = ltb x y || x == y && bytes_ltb xs ys

pub bytes_beq_iff : (a b : Bytes) → (bytes_beq a b ≡ true) ↔ (a ≡ b)
unfolding bytes_beq
bytes_beq_iff [] [] = ground arith
bytes_beq_iff [] (y ∷ ys) = ground arith
bytes_beq_iff (x ∷ xs) [] = ground arith
bytes_beq_iff (x ∷ xs) (y ∷ ys) = ground (arith, bytes_beq_iff xs ys)

instance abbrev pub bytes_eq : Eq Bytes
bytes_eq = record { beq = bytes_beq; beq_iff = bytes_beq_iff }

-- strings.Join(parts, sep)
unfoldable pub join : List Bytes → Bytes → Bytes
join [] sep = []
join (p ∷ []) sep = p
join (p ∷ q ∷ ps) sep = p ++ sep ++ join (q ∷ ps) sep

pub bytes_beq_refl : (a : Bytes) → bytes_beq a a ≡ true
bytes_beq_refl a = (bytes_beq_iff a a).1 refl

-- Two strings are equal, or one of them is the smaller one.
pub bytes-trichotomy :
    (a b : Bytes) → bytes_beq a b ≡ false → bytes_ltb a b ≡ false → bytes_ltb b a ≡ true
unfolding bytes_beq bytes_ltb
bytes-trichotomy [] [] ne h = ground arith
bytes-trichotomy [] (y ∷ ys) ne h = ground arith
bytes-trichotomy (x ∷ xs) [] ne h = refl
bytes-trichotomy (x ∷ xs) (y ∷ ys) ne h = ground (arith, bytes-trichotomy xs ys)

pub bytes_ltb-asym : (a b : Bytes) → bytes_ltb a b ≡ true → bytes_ltb b a ≡ false
unfolding bytes_ltb
bytes_ltb-asym [] [] h = refl
bytes_ltb-asym [] (y ∷ ys) h = refl
bytes_ltb-asym (x ∷ xs) [] h = ground arith
bytes_ltb-asym (x ∷ xs) (y ∷ ys) h = ground (arith, bytes_ltb-asym xs ys)
