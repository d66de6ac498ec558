-- ===== src/Gnmi/Match.antt =====
-- Equality of paths, and the paths below a path, as Boolean tests. A key map is compared as the list
-- that its path builder wrote.
use for_visibility.Prelude.{
  ◌≡◌, refl, Bool, true, false, ◌&&◌, Option, none, some, List, [], ◌∷◌, ◌++◌, if◌then◌else◌, arith,
}
use for_visibility.Prelude.Assoc.{Map}
use for_visibility.Text.{Bytes, bytes_beq, bytes_beq_refl}
use for_visibility.Gnmi.{PathElem, GnmiPath, TypedValue, Update}

unfoldable pub key_beq : Map Bytes Bytes → Map Bytes Bytes → Bool
key_beq [] [] = true
key_beq [] (y ∷ ys) = false
key_beq (x ∷ xs) [] = false
key_beq ((k, v) ∷ xs) ((j, w) ∷ ys) = bytes_beq k j && bytes_beq v w && key_beq xs ys

unfoldable pub elem_beq : PathElem → PathElem → Bool
unfolding key_beq
elem_beq a b = bytes_beq a.name b.name && key_beq a.key b.key

unfoldable pub elems_beq : List PathElem → List PathElem → Bool
elems_beq [] [] = true
elems_beq [] (y ∷ ys) = false
elems_beq (x ∷ xs) [] = false
elems_beq (x ∷ xs) (y ∷ ys) = elem_beq x y && elems_beq xs ys

-- `covers p e`: the subtree of `p` has `e` in it.
unfoldable pub covers : List PathElem → List PathElem → Bool
covers [] e = true
covers (x ∷ xs) [] = false
covers (x ∷ xs) (y ∷ ys) = elem_beq x y && covers xs ys

-- the value that the last of the updates of a path gives it
unfoldable pub written : List Update → List PathElem → Option TypedValue → Option TypedValue
unfolding elems_beq
written [] e old = old
written (u ∷ ups) e old = written ups e (if elems_beq u.path.elem e then some u.val else old)

unfoldable pub deleted : List GnmiPath → List PathElem → Option TypedValue → Option TypedValue
unfolding covers
deleted [] e old = old
deleted (p ∷ dels) e old = deleted dels e (if covers p.elem e then none else old)

key_beq_refl : (k : Map Bytes Bytes) → key_beq k k ≡ true
unfolding key_beq
key_beq_refl [] = refl
key_beq_refl ((k, v) ∷ xs) = ground (arith, bytes_beq_refl k, bytes_beq_refl v, key_beq_refl xs)

elem_beq_refl : (a : PathElem) → elem_beq a a ≡ true
unfolding elem_beq
elem_beq_refl a = ground (arith, bytes_beq_refl a.name, key_beq_refl a.key)

-- Below a common beginning only the ends decide.
pub elems_beq-append :
    (base a b : List PathElem) → elems_beq (base ++ a) (base ++ b) ≡ elems_beq a b
unfolding elems_beq
elems_beq-append [] a b = refl
elems_beq-append (x ∷ base) a b = rw (elem_beq_refl x) (elems_beq-append base a b)

pub covers-append : (base a b : List PathElem) → covers (base ++ a) (base ++ b) ≡ covers a b
unfolding covers
covers-append [] a b = refl
covers-append (x ∷ base) a b = rw (elem_beq_refl x) (covers-append base a b)
