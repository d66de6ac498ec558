-- ===== src/Text/Split.antt =====
-- `strings.Split` and `strings.IndexByte` with one byte, `strings.HasPrefix`, `strings.Trim` with
-- one byte, and `strings.TrimSpace` of ASCII text.
use for_visibility.Prelude.{
  ℕ, suc, ◌≡◌, refl, Bool, true, false, ◌&&◌, ◌||◌, Option, none, some, List, [], ◌∷◌, ◌++◌, ltb,
  ◌==◌, if◌then◌else◌, take, drop, append_assoc, All, ap, arith,
}
use for_visibility.Text.{Bytes, join}

==_refl : (c : ℕ) → (c == c) ≡ true
==_refl c = ground arith

unfoldable pub has_byte : ℕ → Bytes → Bool
has_byte c [] = false
has_byte c (x ∷ s) = x == c || has_byte c s

-- strings.IndexByte; `none` is -1
unfoldable pub index_byte : ℕ → Bytes → Option ℕ
index_byte c [] = none
index_byte c (x ∷ s) =
    let rest = index_byte c s in
    if x == c then some 0 else elim rest [ none ↦ none | some i ↦ some (suc i) ]

abbrev pub push_first : ℕ → List Bytes → List Bytes
push_first x [] = (x ∷ []) ∷ []
push_first x (p ∷ ps) = (x ∷ p) ∷ ps

-- strings.Split(s, string(c))
unfoldable pub split_on : ℕ → Bytes → List Bytes
split_on c [] = [] ∷ []
split_on c (x ∷ s) = let rest = split_on c s in if x == c then [] ∷ rest else push_first x rest

unfoldable pub has_prefix : Bytes → Bytes → Bool
has_prefix s [] = true
has_prefix [] (y ∷ ys) = false
has_prefix (x ∷ s) (y ∷ ys) = x == y && has_prefix s ys

unfoldable pub trim_left : (ℕ → Bool) → Bytes → Bytes
trim_left f [] = []
trim_left f (x ∷ s) = let rest = trim_left f s in if f x then rest else x ∷ s

-- without the bytes at the end that `f` takes
unfoldable pub trim_right : (ℕ → Bool) → Bytes → Bytes
trim_right f [] = []
trim_right f (x ∷ s) = elim (trim_right f s) [
  | [] ↦ if f x then [] else x ∷ []
  | y ∷ ys ↦ x ∷ y ∷ ys
]

abbrev pub trim_by : (ℕ → Bool) → Bytes → Bytes
trim_by f s = trim_right f (trim_left f s)

-- '\t', '\n', '\v', '\f', '\r', ' '
abbrev pub is_space : ℕ → Bool
is_space c = ltb 8 c && ltb c 14 || c == 32

abbrev pub trim_space : Bytes → Bytes
trim_space s = trim_by is_space s

pub has_byte-append : (c : ℕ) (p s : Bytes) → has_byte c (p ++ s) ≡ (has_byte c p || has_byte c s)
unfolding has_byte
has_byte-append c [] s = refl
has_byte-append c (x ∷ p) s = ground (arith, has_byte-append c p s)

pub split_on-part :
    (c : ℕ) (p s : Bytes) → has_byte c p ≡ false → split_on c (p ++ c ∷ s) ≡ p ∷ split_on c s
unfolding has_byte split_on
split_on-part c [] s h = ground arith
split_on-part c (x ∷ p) s h = ground (arith, split_on-part c p s)

pub split_on-last : (c : ℕ) (p : Bytes) → has_byte c p ≡ false → split_on c p ≡ p ∷ []
unfolding has_byte split_on
split_on-last c [] h = refl
split_on-last c (x ∷ p) h = ground (arith, split_on-last c p)

pub index_byte-part :
    (c : ℕ) (p s : Bytes)
    → has_byte c p ≡ false
    → (i : ℕ) × (index_byte c (p ++ c ∷ s) ≡ some i)
      × (take i (p ++ c ∷ s) ≡ p)
      × (drop (suc i) (p ++ c ∷ s) ≡ s)
unfolding has_byte index_byte
index_byte-part c [] s h = (0, rw (==_refl c) refl, refl, refl)
index_byte-part c (x ∷ p) s h =
    let (i, at_i, before, after) = index_byte-part c p s (ground arith) in
    (suc i, ground (arith, at_i), ap (λ q. x ∷ q) before, after)

pub join_single : (c : ℕ) (p : Bytes) → join (p ∷ []) (c ∷ []) ≡ p
unfolding join
join_single c p = refl

pub join_cons :
    (c : ℕ) (p q : Bytes) (ps : List Bytes)
    → join (p ∷ q ∷ ps) (c ∷ []) ≡ p ++ c ∷ join (q ∷ ps) (c ∷ [])
unfolding join
join_cons c p q ps = append_assoc p (c ∷ []) (join (q ∷ ps) (c ∷ []))

-- Parts without the separator are what `split_on` finds in their join.
pub split_on-join :
    (c : ℕ) (p : Bytes) (ps : List Bytes)
    → All (λ q. has_byte c q ≡ false) (p ∷ ps)
    → split_on c (join (p ∷ ps) (c ∷ [])) ≡ p ∷ ps
split_on-join c p [] h = rw (join_single c p) (split_on-last c p h.0)
split_on-join c p (q ∷ ps) h =
    rw (join_cons c p q ps, split_on-part c p (join (q ∷ ps) (c ∷ [])) h.0)
      (ap (λ rest. p ∷ rest) (split_on-join c q ps h.1))
