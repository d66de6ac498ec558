-- ===== src/Bmp/Update/Attributes.antt =====
-- The walk over the path attributes of a BGP UPDATE.
use for_visibility.Prelude.{
  ℕ, zero, suc, ◌+◌, ◌-◌, ◌*◌, ◌/◌, ◌%◌, ◌≤◌, ◌<◌, ◌≡◌, refl, inl, inr, ◌∙◌, true, false, List, [],
  ◌∷◌, ◌++◌, append_assoc, append-nil, if◌then◌else◌, length, length-append, drop, drop-append_at,
  take-append_at, All, arith, le→ltb, Bool-cases, Run, returns, panics,
}
use for_visibility.Text.{Bytes}
use for_visibility.Wire.{put_be16}
use for_visibility.Bmp.Update.{Found, keep_attr, is_extended, attr_loop, nothing_found, walk_attrs}

pub record PathAttr : Type 0 where
  pub flags : ℕ
  pub atype : ℕ
  pub val : Bytes

-- The length fits the one or two bytes that the flags leave for it.
abbrev pub IsPathAttr : PathAttr → Type 0
IsPathAttr a = length a.val < (if is_extended a.flags then 65536 else 256)

unfoldable pub encode_attr : PathAttr → Bytes
encode_attr a =
    if is_extended a.flags
    then a.flags ∷ a.atype ∷ (put_be16 (length a.val) ++ a.val)
    else a.flags ∷ a.atype ∷ length a.val ∷ a.val

unfoldable pub encode_attrs : List PathAttr → Bytes
encode_attrs [] = []
encode_attrs (a ∷ attributes) = encode_attr a ++ encode_attrs attributes

-- what the walk keeps of all the attributes: the last of each kind
unfoldable pub keep_all : Found → List PathAttr → Found
keep_all s [] = s
keep_all s (a ∷ attributes) = keep_all (keep_attr s a.atype a.val) attributes

module _ (fuel : ℕ) (s : Found) (a : PathAttr) (rest beyond : Bytes) (fits : IsPathAttr a) where
  attr_loop-extended :
      is_extended a.flags ≡ true
      → attr_loop
          (suc fuel)
          s
          ((a.flags ∷ a.atype ∷ (put_be16 (length a.val) ++ a.val)) ++ rest)
          beyond
        ≡ attr_loop fuel (keep_attr s a.atype a.val) rest beyond
  attr_loop-extended ext =
      unfold attr_loop in
      rw (
        ext,
        two_bytes,
        le→ltb (length ((a.flags ∷ a.atype ∷ (put_be16 (length a.val) ++ a.val)) ++ rest)) 3
            (omega arith),
        le→ltb
            (length (((a.flags ∷ a.atype ∷ (put_be16 (length a.val) ++ a.val)) ++ rest) ++ beyond))
            4 (omega arith),
        le→ltb (length ((a.flags ∷ a.atype ∷ (put_be16 (length a.val) ++ a.val)) ++ rest))
            (4 + length a.val) (omega (arith, length-append a.val rest)),
        size,
        take-append_at (length a.val) a.val rest refl,
        drop4,
      )
    where
      short_enough : length a.val < 65536
      short_enough = rw ext at fits

      two_bytes : length a.val / 256 % 256 * 256 + length a.val % 256 ≡ length a.val
      two_bytes = omega (arith, short_enough)

      size : 4 + length a.val - 4 ≡ length a.val
      size = omega arith

      drop4 :
          drop (4 + length a.val) ((a.flags ∷ a.atype ∷ (put_be16 (length a.val) ++ a.val)) ++ rest)
          ≡ rest
      drop4 =
          drop-append_at _ (a.flags ∷ a.atype ∷ (put_be16 (length a.val) ++ a.val)) rest
            (omega arith)

  attr_loop-short :
      is_extended a.flags ≡ false
      → attr_loop (suc fuel) s ((a.flags ∷ a.atype ∷ length a.val ∷ a.val) ++ rest) beyond
        ≡ attr_loop fuel (keep_attr s a.atype a.val) rest beyond
  attr_loop-short short =
      unfold attr_loop in
      rw (
        short,
        le→ltb (length ((a.flags ∷ a.atype ∷ length a.val ∷ a.val) ++ rest)) 3 (omega arith),
        le→ltb (length ((a.flags ∷ a.atype ∷ length a.val ∷ a.val) ++ rest)) (3 + length a.val)
            (omega (arith, length-append a.val rest)),
        size,
        take-append_at (length a.val) a.val rest refl,
        drop3,
      )
    where
      size : 3 + length a.val - 3 ≡ length a.val
      size = omega arith

      drop3 : drop (3 + length a.val) (a.flags ∷ a.atype ∷ length a.val ∷ (a.val ++ rest)) ≡ rest
      drop3 = drop-append_at _ (a.flags ∷ a.atype ∷ length a.val ∷ a.val) rest (omega arith)

  attr_loop-encode_attr :
      attr_loop (suc fuel) s (encode_attr a ++ rest) beyond
      ≡ attr_loop fuel (keep_attr s a.atype a.val) rest beyond
  attr_loop-encode_attr = elim (Bool-cases (is_extended a.flags)) [
    | inl ext ↦ unfold encode_attr in rw (ext, encode_attr) (attr_loop-extended ext)
    | inr short ↦ unfold encode_attr in rw (short, encode_attr) (attr_loop-short short)
  ]

encode_attr-length : (a : PathAttr) → 3 ≤ length (encode_attr a)
unfolding encode_attr
encode_attr-length a = ground arith

append_length :
    (a : PathAttr) (attributes : List PathAttr) (tail : Bytes)
    → length ((encode_attr a ++ encode_attrs attributes) ++ tail)
      ≡ length (encode_attr a) + length (encode_attrs attributes ++ tail)
append_length a attributes tail =
    rw (append_assoc (encode_attr a) (encode_attrs attributes) tail)
      (length-append (encode_attr a) (encode_attrs attributes ++ tail))

-- Behind encoded attributes the walk goes on with what follows them.
attr_loop-append :
    (fuel : ℕ) (s : Found) (attributes : List PathAttr) (tail beyond : Bytes)
    (r : Found → Run Found)
    → All IsPathAttr attributes
    → ((f : ℕ) (s' : Found) → length tail ≤ f → attr_loop f s' tail beyond ≡ r s')
    → length (encode_attrs attributes ++ tail) ≤ fuel
    → attr_loop fuel s (encode_attrs attributes ++ tail) beyond ≡ r (keep_all s attributes)
unfolding encode_attrs keep_all
attr_loop-append fuel s [] tail beyond r h ends enough = ends fuel s enough
attr_loop-append zero s (a ∷ attributes) tail beyond r h ends enough =
    absurd (omega (arith, append_length a attributes tail, encode_attr-length a))
attr_loop-append (suc fuel) s (a ∷ attributes) tail beyond r (fits, h) ends enough =
    rw (append_assoc (encode_attr a) (encode_attrs attributes) tail) (
      attr_loop-encode_attr fuel s a (encode_attrs attributes ++ tail) beyond fits
      ∙ attr_loop-append fuel (keep_attr s a.atype a.val) attributes tail beyond r h ends
          (omega (arith, append_length a attributes tail, encode_attr-length a)))

-- Every well-formed attribute list is walked to its end without a panic, whatever follows it, and
-- what is kept is the last MP_REACH, the last MP_UNREACH and the targets of the last extended
-- communities.
pub walk_attrs-encode_attrs :
    (attributes : List PathAttr) (beyond : Bytes)
    → All IsPathAttr attributes
    → walk_attrs (encode_attrs attributes) beyond ≡ returns (keep_all nothing_found attributes)
walk_attrs-encode_attrs attributes beyond h =
    unfold walk_attrs in
    rw (← append-nil (encode_attrs attributes))
      (attr_loop-append _ nothing_found attributes [] beyond returns h nil_ends (omega arith))
  where
    nil_ends : (f : ℕ) (s' : Found) → 0 ≤ f → attr_loop f s' [] beyond ≡ returns s'
    nil_ends zero s' enough = unfold attr_loop in refl
    nil_ends (suc f) s' enough = unfold attr_loop in refl

-- Three bytes are left, they announce an extended length, and the message ends with them: Go
-- slices past the capacity and the walk panics, whatever well-formed attributes stand before.
pub walk_attrs-panics :
    (attributes : List PathAttr) (flags atype len : ℕ)
    → All IsPathAttr attributes
    → is_extended flags ≡ true
    → walk_attrs (encode_attrs attributes ++ flags ∷ atype ∷ len ∷ []) [] ≡ panics
walk_attrs-panics attributes flags atype len h ext =
    unfold walk_attrs in
    attr_loop-append _ nothing_found attributes (flags ∷ atype ∷ len ∷ []) [] (λ s. panics) h ends
      (omega arith)
  where
    ends : (f : ℕ) (s' : Found) → 3 ≤ f → attr_loop f s' (flags ∷ atype ∷ len ∷ []) [] ≡ panics
    ends zero s' enough = absurd (omega arith)
    ends (suc f) s' enough = unfold attr_loop in rw ext

-- The same three bytes with a byte of NLRI behind them are only ignored.
pub walk_attrs-stops :
    (attributes : List PathAttr) (flags atype len next : ℕ) (beyond : Bytes)
    → All IsPathAttr attributes
    → is_extended flags ≡ true
    → walk_attrs (encode_attrs attributes ++ flags ∷ atype ∷ len ∷ []) (next ∷ beyond)
      ≡ returns (keep_all nothing_found attributes)
walk_attrs-stops attributes flags atype len next beyond h ext =
    unfold walk_attrs in
    attr_loop-append _ nothing_found attributes (flags ∷ atype ∷ len ∷ []) (next ∷ beyond) returns h
      ends (omega arith)
  where
    ends :
        (f : ℕ) (s' : Found)
        → 3 ≤ f
        → attr_loop f s' (flags ∷ atype ∷ len ∷ []) (next ∷ beyond) ≡ returns s'
    ends zero s' enough = absurd (omega arith)
    ends (suc f) s' enough = unfold attr_loop in rw ext (ground arith)
