-- ===== src/Topology/Names.antt =====
-- `role`, `title`, `niName` and `ifacePeer`.
use for_visibility.Prelude.{
  ℕ, ◌+◌, ◌-◌, Bool, true, false, not, ◌&&◌, List, [], ◌∷◌, ◌++◌, ltb, leb, ◌==◌, if◌then◌else◌,
  length, drop, get_or,
}
use for_visibility.Text.{Bytes, text, bytes_beq}
use for_visibility.Text.Split.{split_on, has_prefix}
use for_visibility.Gnmi.{PathElem, GnmiPath}
use for_visibility.Exporter.{is_empty, get_key}

unfoldable pub role : Bytes → Bytes
role name =
    if has_prefix name (text "vlan:")
    then text "VLAN"
    else if has_prefix name (text "mac:")
    then text "MAC"
    else if has_prefix name (text "pe")
    then text "PE"
    else if has_prefix name (text "ce")
    then text "CE"
    else if has_prefix name (text "p")
    then text "P"
    else text "?"

-- the ellipsis and the last two parts of a MAC address
abbrev pub short_mac : Bytes → Bytes
short_mac s =
    let p = split_on 58 s in
    let n = length p in
    if leb 2 n then 226 ∷ 128 ∷ 166 ∷ get_or p (n - 2) [] ++ 58 ∷ get_or p (n - 1) [] else s

unfoldable pub title : Bytes → Bytes
title name =
    if has_prefix name (text "vlan:")
    then text "vlan" ++ drop 5 name
    else if has_prefix name (text "mac:")
    then short_mac (drop 4 name)
    else name

abbrev pub instance_name : List PathElem → Bytes
instance_name [] = []
instance_name (e ∷ elems) =
    let rest = instance_name elems in
    if bytes_beq e.name (text "network-instance") then get_key (text "name") e.key else rest

-- niName: the VRF of a path
unfoldable pub ni_name : GnmiPath → Bytes
unfolding bytes_beq
ni_name p = instance_name p.elem

abbrev pub other_part : List Bytes → Bytes → Bytes
other_part [] self = []
other_part (part ∷ parts) self =
    let rest = other_part parts self in
    if not (is_empty part) && not (bytes_beq part self) then part else rest

-- ifacePeer: of "<self>-<peer>" the peer
unfoldable pub iface_peer : Bytes → Bytes → Bytes
unfolding split_on
iface_peer iface self = other_part (split_on 45 iface) self

-- strings.EqualFold of ASCII text
abbrev pub fold : ℕ → ℕ
fold c = if ltb 64 c && ltb c 91 then c + 32 else c

unfoldable pub equal_fold : Bytes → Bytes → Bool
equal_fold [] [] = true
equal_fold [] (y ∷ t) = false
equal_fold (x ∷ s) [] = false
equal_fold (x ∷ s) (y ∷ t) = fold x == fold y && equal_fold s t
