-- ===== src/Gnmi/Paths.antt =====
-- The path builders of the ingesters: `aftPath`, `neighborElems`, `vpnRouteElems`, `ospfNbrElems`.
use for_visibility.Prelude.{List, [], ◌∷◌, if◌then◌else◌}
use for_visibility.Text.{Bytes, text, bytes_beq}
use for_visibility.Gnmi.{PathElem, GnmiPath, elems_path}

-- {Name: n}
abbrev pub plain : Bytes → PathElem
plain n = record { name = n; key = [] }

-- {Name: n, Key: {k: v}}
abbrev pub keyed : Bytes → Bytes → Bytes → PathElem
keyed n k v = record { name = n; key = (k, v) ∷ [] }

abbrev pub keyed2 : Bytes → Bytes → Bytes → Bytes → Bytes → PathElem
keyed2 n k v j w = record { name = n; key = (k, v) ∷ (j, w) ∷ [] }

-- `if leaf != "" { e = append(e, state, leaf) }`
unfoldable pub state_leaf : Bytes → List PathElem
state_leaf [] = []
state_leaf (c ∷ leaf) = plain (text "state") ∷ plain (c ∷ leaf) ∷ []

unfoldable pub aft_path : Bytes → Bytes → Bytes → Bytes → GnmiPath
aft_path vrf af_name prefix leaf =
    let entry =
      if bytes_beq af_name (text "ipv6-unicast") then text "ipv6-entry" else text "ipv4-entry" in
    elems_path (
      plain (text "network-instances")
      ∷ keyed (text "network-instance") (text "name") vrf
      ∷ plain (text "afts")
      ∷ plain af_name
      ∷ keyed entry (text "prefix") prefix
      ∷ plain (text "state")
      ∷ plain leaf
      ∷ [])

unfoldable pub neighbor_elems : Bytes → Bytes → Bytes → List PathElem
neighbor_elems vrf peer leaf =
    plain (text "network-instances")
    ∷ keyed (text "network-instance") (text "name") vrf
    ∷ plain (text "protocols")
    ∷ keyed2 (text "protocol") (text "identifier") (text "BGP") (text "name") (text "bgp")
    ∷ plain (text "bgp")
    ∷ plain (text "neighbors")
    ∷ keyed (text "neighbor") (text "neighbor-address") peer
    ∷ plain (text "state")
    ∷ plain leaf
    ∷ []

unfoldable pub vpn_route_elems : Bytes → Bytes → Bytes → List PathElem
vpn_route_elems rd prefix leaf =
    plain (text "bgp-rib")
    ∷ plain (text "afi-safis")
    ∷ keyed (text "afi-safi") (text "name") (text "l3vpn-ipv4-unicast")
    ∷ plain (text "routes")
    ∷ keyed2 (text "route") (text "rd") rd (text "prefix") prefix
    ∷ state_leaf leaf

unfoldable pub ospf_nbr_elems : Bytes → Bytes → Bytes → List PathElem
ospf_nbr_elems iface rid leaf =
    plain (text "network-instances")
    ∷ keyed (text "network-instance") (text "name") (text "default")
    ∷ plain (text "protocols")
    ∷ keyed2 (text "protocol") (text "identifier") (text "OSPF") (text "name") (text "ospf")
    ∷ plain (text "ospfv2")
    ∷ plain (text "areas")
    ∷ keyed (text "area") (text "identifier") (text "0.0.0.0")
    ∷ plain (text "interfaces")
    ∷ keyed (text "interface") (text "id") iface
    ∷ plain (text "neighbors")
    ∷ keyed (text "neighbor") (text "router-id") rid
    ∷ state_leaf leaf
