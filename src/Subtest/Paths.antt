-- ===== src/Subtest/Paths.antt =====
-- The test client reads back the paths that it prints.
use for_visibility.Prelude.{
  ◌≡◌, refl, sym, ap, ◌∙◌, false, none, List, [], ◌∷◌, ◌++◌, append-nil, All, if◌then◌else◌,
}
use for_visibility.Text.{Bytes}
use for_visibility.Text.Split.{has_byte, split_on, split_on-part, split_on-last}
use for_visibility.Exporter.{is_empty}
use for_visibility.Gnmi.{PathElem, elems_path}
use for_visibility.Subtest.{named_elems, parse_path, keys_str, elems_str, origin_str, path_str}

-- A name that is not empty and has no slash, without keys.
abbrev pub IsPlainElem : PathElem → Type 0
IsPlainElem e = (has_byte 47 e.name ≡ false) × (is_empty e.name ≡ false) × (e.key ≡ [])

-- the first part of a path in front of plain elements
abbrev part_elems : Bytes → List PathElem → List PathElem
part_elems p elems = if is_empty p then elems else record { name = p; key = [] } ∷ elems

split_on-elems_str :
    (p : Bytes) (elems : List PathElem)
    → has_byte 47 p ≡ false
    → All IsPlainElem elems
    → named_elems (split_on 47 (p ++ elems_str elems)) ≡ part_elems p elems
unfolding elems_str keys_str
split_on-elems_str p [] h plain =
    ap (λ s. named_elems (split_on 47 s)) (append-nil p) ∙ ap named_elems (split_on-last 47 p h)
split_on-elems_str p (e ∷ elems) h ((slash, named, keys), plain) =
    rw (split_on-part 47 p (e.name ++ keys_str e.key ++ elems_str elems) h)
      (ap (part_elems p) (rest (split_on-elems_str e.name elems slash plain)))
  where
    name_only : e.name ++ keys_str e.key ≡ e.name
    name_only = ap (λ key. e.name ++ keys_str key) keys ∙ append-nil e.name

    first : part_elems e.name elems ≡ e ∷ elems
    first = rw (named) (ap (λ key. record { name = e.name; key = key } ∷ elems) (sym keys))

    rest :
        named_elems (split_on 47 (e.name ++ elems_str elems)) ≡ part_elems e.name elems
        → named_elems (split_on 47 (e.name ++ keys_str e.key ++ elems_str elems)) ≡ e ∷ elems
    rest later =
        ap (λ s. named_elems (split_on 47 (s ++ elems_str elems))) name_only ∙ later ∙ first

-- What the client prints for a path without origin and keys, it parses back: the elements have names
-- that are not empty and have no slash.
pub parse_path-path_str :
    (elems : List PathElem)
    → All IsPlainElem elems
    → parse_path (path_str none (elems_path elems)) ≡ elems
unfolding parse_path path_str origin_str has_byte
parse_path-path_str elems plain = split_on-elems_str [] elems refl plain
