-- ===== src/Topology/Paths.antt =====
-- The paths that the topology exporter gets, with a wildcard for every key.
use for_visibility.Prelude.{[], ◌∷◌}
use for_visibility.Text.{Bytes, text}
use for_visibility.Gnmi.{PathElem, GnmiPath}
use for_visibility.Gnmi.Paths.{plain, keyed, keyed2}
use for_visibility.Pathtrace.Lookup.{openconfig_path}

-- {Name: n, Key: {k: "*"}}
abbrev pub any_of : Bytes → Bytes → PathElem
any_of n k = keyed n k (text "*")

unfoldable pub lldp_path : GnmiPath
lldp_path = openconfig_path (
    plain (text "lldp")
    ∷ plain (text "interfaces")
    ∷ any_of (text "interface") (text "name")
    ∷ plain (text "neighbors")
    ∷ any_of (text "neighbor") (text "id")
    ∷ plain (text "state")
    ∷ plain (text "system-name")
    ∷ [])

abbrev pub any_protocol : PathElem
any_protocol = keyed2 (text "protocol") (text "identifier") (text "*") (text "name") (text "*")

unfoldable pub ospf_path : GnmiPath
ospf_path = openconfig_path (
    plain (text "network-instances")
    ∷ any_of (text "network-instance") (text "name")
    ∷ plain (text "protocols")
    ∷ any_protocol
    ∷ plain (text "ospfv2")
    ∷ plain (text "areas")
    ∷ any_of (text "area") (text "identifier")
    ∷ plain (text "interfaces")
    ∷ any_of (text "interface") (text "id")
    ∷ plain (text "neighbors")
    ∷ any_of (text "neighbor") (text "router-id")
    ∷ plain (text "state")
    ∷ plain (text "adjacency-state")
    ∷ [])

unfoldable pub bgp_path : GnmiPath
bgp_path = openconfig_path (
    plain (text "network-instances")
    ∷ any_of (text "network-instance") (text "name")
    ∷ plain (text "protocols")
    ∷ any_protocol
    ∷ plain (text "bgp")
    ∷ plain (text "neighbors")
    ∷ any_of (text "neighbor") (text "neighbor-address")
    ∷ plain (text "state")
    ∷ plain (text "session-state")
    ∷ [])

-- lfibPath of the topology exporter
unfoldable pub all_lfib_path : GnmiPath
all_lfib_path = record {
  target = [];
  origin = text "frr";
  elem =
      plain (text "mpls")
      ∷ plain (text "lfib")
      ∷ any_of (text "entry") (text "label")
      ∷ plain (text "state")
      ∷ [];
}

unfoldable pub fdb_path : GnmiPath
fdb_path = openconfig_path (
    plain (text "network-instances")
    ∷ any_of (text "network-instance") (text "name")
    ∷ plain (text "fdb")
    ∷ plain (text "mac-table")
    ∷ plain (text "entries")
    ∷ keyed2 (text "entry") (text "mac-address") (text "*") (text "vlan") (text "*")
    ∷ plain (text "state")
    ∷ [])
