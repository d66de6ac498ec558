-- ===== src/Netlink/Paths.antt =====
-- The path helpers of internal/ingest/netlink.go.
use for_visibility.Prelude.{ℕ, List, [], ◌∷◌, ◌++◌}
use for_visibility.Text.{Bytes, text}
use for_visibility.Text.Decimal.{itoa}
use for_visibility.Gnmi.{PathElem, Update, uint_val, elems_path}
use for_visibility.Gnmi.Paths.{plain, keyed, keyed2, state_leaf}

unfoldable pub iface_elems : Bytes → Bytes → List PathElem
iface_elems name leaf =
    plain (text "interfaces") ∷ keyed (text "interface") (text "name") name ∷ state_leaf leaf

unfoldable pub counter_update : Bytes → Bytes → ℕ → Update
counter_update name leaf v = record {
  path = elems_path (
      plain (text "interfaces")
      ∷ keyed (text "interface") (text "name") name
      ∷ plain (text "state")
      ∷ plain (text "counters")
      ∷ plain leaf
      ∷ []);
  val = uint_val v;
}

unfoldable pub fdb_elems : Bytes → Bytes → Bytes → List PathElem
fdb_elems mac vlan leaf =
    plain (text "network-instances")
    ∷ keyed (text "network-instance") (text "name") (text "default")
    ∷ plain (text "fdb")
    ∷ plain (text "mac-table")
    ∷ plain (text "entries")
    ∷ keyed2 (text "entry") (text "mac-address") mac (text "vlan") vlan
    ∷ state_leaf leaf

unfoldable pub mpls_elems : ℕ → Bytes → List PathElem
mpls_elems label leaf =
    plain (text "mpls")
    ∷ plain (text "lfib")
    ∷ keyed (text "entry") (text "label") (itoa label)
    ∷ state_leaf leaf

unfoldable pub addr_elems : Bytes → Bytes → Bytes → List PathElem
addr_elems ifname ip leaf =
    plain (text "interfaces")
    ∷ keyed (text "interface") (text "name") ifname
    ∷ plain (text "subinterfaces")
    ∷ keyed (text "subinterface") (text "index") (text "0")
    ∷ plain (text "ipv4")
    ∷ plain (text "addresses")
    ∷ keyed (text "address") (text "ip") ip
    ∷ state_leaf leaf

-- the labels in decimal, with commas between
unfoldable pub ints_csv : List ℕ → Bytes
ints_csv [] = []
ints_csv (x ∷ []) = itoa x
ints_csv (x ∷ y ∷ v) = itoa x ++ text "," ++ ints_csv (y ∷ v)
