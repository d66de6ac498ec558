-- ===== src/Attr/Walk.antt =====
-- What the attribute walk of fpm.go visits.
use for_visibility.Prelude.{
  ℕ, zero, suc, ◌+◌, ◌-◌, ◌%◌, ◌≤◌, ◌<◌, ◌≡◌, refl, ap, List, [], ◌∷◌, ◌++◌, append_assoc,
  append-nil, ◌∙◌, ◌≢◌, length, length-append, drop, All, map, Run, returns, panics, ◌>>=◌, arith,
  le→ltb, take-append, drop-append_at, length-drop,
}
use for_visibility.Text.{Bytes}
use for_visibility.Wire.{slice, le16, put_le16}
use for_visibility.Attr.{Attr, aligned, walk, for_each_attr}

-- A Netlink attribute stream as the kernel lays it out: each attribute padded to four bytes.
abbrev pub zeros : ℕ → Bytes
zeros zero = []
zeros (suc n) = 0 ∷ zeros n

abbrev pub unpadded : Attr → Bytes
unpadded a = put_le16 (4 + length a.payload) ++ put_le16 a.atype ++ a.payload

abbrev pub padding : Attr → Bytes
padding a = zeros (aligned (4 + length a.payload) - (4 + length a.payload))

unfoldable pub encode : List Attr → Bytes
encode [] = []
encode (a ∷ attributes) = (unpadded a ++ padding a) ++ encode attributes

-- The length fits its 16 bits, and so does the type.
abbrev pub Fits : Attr → Type 0
Fits a = (4 + length a.payload < 65536) × (a.atype < 65536)

-- the type without NLA_F_NESTED and NLA_F_NET_BYTEORDER
abbrev pub strip : Attr → Attr
strip a = record a { atype = a.atype % 16384 }

length-zeros : (n : ℕ) → length (zeros n) ≡ n
length-zeros zero = refl
length-zeros (suc n) = ap suc (length-zeros n)

walk-step :
    (fuel n : ℕ) (attrs : Bytes)
    → le16 attrs 0 ≡ n
    → 4 ≤ n
    → n ≤ length attrs
    → aligned n ≤ length attrs
    → walk (suc fuel) attrs ≡ (
        walk fuel (drop (aligned n) attrs) >>= λ attributes.
        returns (record { atype = le16 attrs 2 % 16384; payload = slice 4 n attrs } ∷ attributes))
unfolding walk
walk-step fuel n attrs e four fits room = rw (
  e,
  le→ltb (length attrs) 4 (omega arith),
  le→ltb n 4 four,
  le→ltb (length attrs) n fits,
  le→ltb (length attrs) (aligned n) room,
)

append_length : (xs ys zs : Bytes) → length ((xs ++ ys) ++ zs) ≡ length xs + length (ys ++ zs)
append_length xs ys zs = rw append_assoc (length-append xs (ys ++ zs))

block-length : (a : Attr) → length (unpadded a ++ padding a) ≡ aligned (4 + length a.payload)
block-length a = omega (
  arith,
  length-append (unpadded a) (padding a),
  length-append a.payload [],
  length-zeros (aligned (4 + length a.payload) - (4 + length a.payload)),
)

module _ (a : Attr) (fits : Fits a) (rest : Bytes) where
  block-le16 : le16 ((unpadded a ++ padding a) ++ rest) 0 ≡ 4 + length a.payload
  block-le16 = omega arith

  block-type : le16 ((unpadded a ++ padding a) ++ rest) 2 ≡ a.atype
  block-type = omega arith

  block-drop : drop (aligned (4 + length a.payload)) ((unpadded a ++ padding a) ++ rest) ≡ rest
  block-drop = drop-append_at _ (unpadded a ++ padding a) rest (block-length a)

  block-slice : slice 4 (4 + length a.payload) ((unpadded a ++ padding a) ++ rest) ≡ a.payload
  block-slice =
      rw (shift, append_assoc a.payload (padding a) rest)
        (take-append a.payload (padding a ++ rest))
    where
      shift : 4 + length a.payload - 4 ≡ length a.payload
      shift = omega arith

  block-room : aligned (4 + length a.payload) ≤ length ((unpadded a ++ padding a) ++ rest)
  block-room = omega (arith, length-append (unpadded a ++ padding a) rest, block-length a)

-- Behind the attributes of `encode` the walk goes on with what follows them.
walk-append :
    (fuel : ℕ) (attributes : List Attr) (tail : Bytes) (r : Run (List Attr))
    → All Fits attributes
    → ((f : ℕ) → length tail ≤ f → walk f tail ≡ r)
    → length (encode attributes ++ tail) ≤ fuel
    → walk fuel (encode attributes ++ tail) ≡ (r >>= λ more. returns (map strip attributes ++ more))
unfolding encode
walk-append fuel [] tail r h ends enough = rw (ends fuel enough) (returns-bind r)
  where
    returns-bind : (r : Run (List Attr)) → r ≡ (r >>= λ more. returns more)
    returns-bind (returns more) = refl
    returns-bind panics = refl
walk-append zero (a ∷ attributes) tail r h ends enough = absurd (
    omega (
      arith,
      append_length (unpadded a ++ padding a) (encode attributes) tail,
      block-room a h.0 (encode attributes ++ tail),
    ))
walk-append (suc fuel) (a ∷ attributes) tail r (fits, h) ends enough =
    let rest = encode attributes ++ tail in
    rw
      (
        append_assoc (unpadded a ++ padding a) (encode attributes) tail,
        walk-step fuel (4 + length a.payload) ((unpadded a ++ padding a) ++ rest)
            (block-le16 a fits rest) (omega arith) (omega (arith, block-room a fits rest))
            (block-room a fits rest),
        block-drop a fits rest,
        block-slice a fits rest,
        block-type a fits rest,
        walk-append fuel attributes tail r h ends (
            omega (
              arith,
              append_length (unpadded a ++ padding a) (encode attributes) tail,
              block-length a,
              length-append (unpadded a ++ padding a) rest,
            )),
      )
      (bind-bind r)
  where
    bind-bind :
        (r : Run (List Attr))
        → (r >>= (λ more. returns (map strip attributes ++ more)) >>= λ attributes'.
            returns (strip a ∷ attributes'))
          ≡ (r >>= λ more. returns (map strip (a ∷ attributes) ++ more))
    bind-bind (returns more) = refl
    bind-bind panics = refl

-- Every attribute stream that is laid out as the kernel does is walked without a panic, and the
-- callback sees each attribute once, in order, with its payload and its type less the flag bits.
pub for_each_attr-encode :
    (attributes : List Attr)
    → All Fits attributes
    → for_each_attr (encode attributes) ≡ returns (map strip attributes)
unfolding for_each_attr
for_each_attr-encode attributes h = rw (← append-nil (encode attributes)) (
    walk-append _ attributes [] (returns []) h walk-nil (omega arith)
    ∙ ap returns (append-nil (map strip attributes)))
  where
    walk-nil : (f : ℕ) → 0 ≤ f → walk f [] ≡ returns []
    walk-nil zero enough = unfold walk in refl
    walk-nil (suc f) enough = unfold walk in refl

walk-unpadded :
    (last : Attr) (f : ℕ)
    → Fits last
    → (4 + length last.payload) % 4 ≢ 0
    → length (unpadded last) ≤ f
    → walk f (unpadded last) ≡ panics
unfolding walk
walk-unpadded last zero fits odd enough = absurd (omega arith)
walk-unpadded last (suc f) fits odd enough = ground (arith, alen)
  where
    alen : le16 (unpadded last) 0 ≡ 4 + length last.payload
    alen = omega arith

-- Where the kernel's padding is missing behind a last attribute whose length is no multiple of
-- four, Go slices past the end and the walk panics, whatever well-formed attributes stand before.
pub for_each_attr-encode-unpadded :
    (attributes : List Attr) (last : Attr)
    → All Fits attributes
    → Fits last
    → (4 + length last.payload) % 4 ≢ 0
    → for_each_attr (encode attributes ++ unpadded last) ≡ panics
unfolding for_each_attr
for_each_attr-encode-unpadded attributes last h fits odd =
    walk-append _ attributes (unpadded last) panics h
      (λ f enough. walk-unpadded last f fits odd enough) (omega arith)

walk-ne-panics : (fuel : ℕ) (attrs : Bytes) → length attrs % 4 ≡ 0 → walk fuel attrs ≢ panics
unfolding walk
walk-ne-panics zero attrs h = λ e. cc e
walk-ne-panics (suc fuel) attrs h =
    let n : ℕ = aligned (le16 attrs 0) in
    ground (arith, walk-ne-panics fuel (drop n attrs), length-drop n attrs)

Run-cases : (r : Run (List Attr)) → r ≢ panics → (attributes : List Attr) × (r ≡ returns attributes)
Run-cases (returns attributes) h = (attributes, refl)
Run-cases panics h = absurd (h refl)

-- A stream whose size is a multiple of four, as every Netlink message has, never panics.
pub for_each_attr-returns :
    (attrs : Bytes)
    → length attrs % 4 ≡ 0
    → (attributes : List Attr) × (for_each_attr attrs ≡ returns attributes)
unfolding for_each_attr
for_each_attr-returns attrs h = Run-cases _ (walk-ne-panics (length attrs) attrs h)
