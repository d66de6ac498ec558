-- ===== src/Fpm/Route/Leaves.antt =====
-- The two leaves of a route, and what updates and deletes of them do.
use for_visibility.Prelude.{
  ℕ, ◌≡◌, refl, ◌∙◌, false, Option, none, some, List, [], ◌∷◌, ◌++◌, if◌then◌else◌, arith,
}
use for_visibility.Text.{Bytes, text, bytes_beq, bytes_beq_refl}
use for_visibility.Gnmi.{PathElem, TypedValue, string_val, Update, GnmiPath}
use for_visibility.Gnmi.Paths.{plain, keyed, aft_path}
use for_visibility.Gnmi.Match.{
  elem_beq, elems_beq, covers, written, deleted, elems_beq-append, covers-append,
}
use for_visibility.Attr.{labels_csv}
use for_visibility.Fpm.Nexthop.{is_nil}

abbrev pub next_hop_leaf : Bytes → Bytes → Bytes → List PathElem
next_hop_leaf vrf af_name prefix = (aft_path vrf af_name prefix (text "next-hop")).elem

abbrev pub labels_leaf : Bytes → Bytes → Bytes → List PathElem
labels_leaf vrf af_name prefix = (aft_path vrf af_name prefix (text "pushed-mpls-label-stack")).elem

-- the path of an entry up to `state`
aft_base : Bytes → Bytes → Bytes → List PathElem
aft_base vrf af_name prefix =
    let entry =
      if bytes_beq af_name (text "ipv6-unicast") then text "ipv6-entry" else text "ipv4-entry" in
    plain (text "network-instances")
    ∷ keyed (text "network-instance") (text "name") vrf
    ∷ plain (text "afts")
    ∷ plain af_name
    ∷ keyed entry (text "prefix") prefix
    ∷ plain (text "state")
    ∷ []

aft_path-base :
    (vrf af_name prefix leaf : Bytes)
    → (aft_path vrf af_name prefix leaf).elem ≡ aft_base vrf af_name prefix ++ plain leaf ∷ []
unfolding aft_path aft_base
aft_path-base vrf af_name prefix leaf = refl

leaf_beq : (a b : Bytes) → elems_beq (plain a ∷ []) (plain b ∷ []) ≡ bytes_beq a b
unfolding elems_beq elem_beq
leaf_beq a b = ground arith

leaf_covers : (a b : Bytes) → covers (plain a ∷ []) (plain b ∷ []) ≡ bytes_beq a b
unfolding covers elem_beq
leaf_covers a b = ground arith

module _ (vrf af_name prefix a b : Bytes) where
  aft-elems_beq :
      elems_beq (aft_path vrf af_name prefix a).elem (aft_path vrf af_name prefix b).elem
      ≡ bytes_beq a b
  aft-elems_beq =
      rw (aft_path-base vrf af_name prefix a, aft_path-base vrf af_name prefix b)
        (elems_beq-append (aft_base vrf af_name prefix) (plain a ∷ []) (plain b ∷ [])
          ∙ leaf_beq a b)

  aft-covers :
      covers (aft_path vrf af_name prefix a).elem (aft_path vrf af_name prefix b).elem
      ≡ bytes_beq a b
  aft-covers =
      rw (aft_path-base vrf af_name prefix a, aft_path-base vrf af_name prefix b)
        (covers-append (aft_base vrf af_name prefix) (plain a ∷ []) (plain b ∷ [])
          ∙ leaf_covers a b)

leaves_differ : bytes_beq (text "next-hop") (text "pushed-mpls-label-stack") ≡ false
unfolding bytes_beq text
leaves_differ = refl

leaves_differ_sym : bytes_beq (text "pushed-mpls-label-stack") (text "next-hop") ≡ false
unfolding bytes_beq text
leaves_differ_sym = refl

abbrev nh_name : Bytes
nh_name = text "next-hop"

abbrev lbl_name : Bytes
lbl_name = text "pushed-mpls-label-stack"

abbrev pub label_value : List ℕ → Option TypedValue
label_value labels = if is_nil labels then none else some (string_val (labels_csv labels))

module _ (vrf af_name prefix : Bytes) where
  unfoldable pub nh_path : GnmiPath
  nh_path = aft_path vrf af_name prefix nh_name

  unfoldable pub lbl_path : GnmiPath
  lbl_path = aft_path vrf af_name prefix lbl_name

  pub deleted-lbl :
      (old : Option TypedValue)
      → deleted (lbl_path ∷ []) (labels_leaf vrf af_name prefix) old ≡ none
  unfolding deleted lbl_path
  deleted-lbl old =
      ground (arith, aft-covers vrf af_name prefix lbl_name lbl_name, bytes_beq_refl lbl_name)

  pub deleted-both :
      (old : Option TypedValue)
      → (deleted (nh_path ∷ lbl_path ∷ []) (next_hop_leaf vrf af_name prefix) old ≡ none)
        × (deleted (nh_path ∷ lbl_path ∷ []) (labels_leaf vrf af_name prefix) old ≡ none)
  unfolding deleted lbl_path nh_path
  deleted-both old = ground (
    arith,
    aft-covers vrf af_name prefix nh_name nh_name,
    aft-covers vrf af_name prefix lbl_name lbl_name,
    bytes_beq_refl nh_name,
    bytes_beq_refl lbl_name,
  )

  pub written-nh :
      (v : TypedValue) (old : Option TypedValue)
      → (written (record { path = nh_path; val = v } ∷ []) (next_hop_leaf vrf af_name prefix) old
          ≡ some v)
        × (written (record { path = nh_path; val = v } ∷ []) (labels_leaf vrf af_name prefix) old
            ≡ old)
  unfolding written nh_path
  written-nh v old = ground (
    arith,
    aft-elems_beq vrf af_name prefix nh_name nh_name,
    aft-elems_beq vrf af_name prefix nh_name lbl_name,
    bytes_beq_refl nh_name,
    leaves_differ,
  )

  pub written-both :
      (v w : TypedValue) (old old' : Option TypedValue)
      → let ups : List Update =
          record { path = nh_path; val = v } ∷ record { path = lbl_path; val = w } ∷ [] in
        (written ups (next_hop_leaf vrf af_name prefix) old ≡ some v)
        × (written ups (labels_leaf vrf af_name prefix) old' ≡ some w)
  unfolding written nh_path lbl_path
  written-both v w old old' = ground (
    arith,
    aft-elems_beq vrf af_name prefix nh_name nh_name,
    aft-elems_beq vrf af_name prefix nh_name lbl_name,
    aft-elems_beq vrf af_name prefix lbl_name nh_name,
    aft-elems_beq vrf af_name prefix lbl_name lbl_name,
    bytes_beq_refl nh_name,
    bytes_beq_refl lbl_name,
    leaves_differ_sym,
  )
