-- ===== src/Netlink.antt =====
-- internal/ingest/netlink.go: kernel links, bridge FDB, MPLS table, addresses and counters turned
-- into gNMI updates. What the kernel answers is the argument `KernelView`; `Flags&FlagUp` is `up`.
mod Kernel
mod Paths
pub mod Subtree
pub mod Fdb
pub use Kernel.*
unfoldable pub use Paths.*
use for_visibility.Prelude.{
  ℕ, ◌/◌, ◌%◌, Bool, true, false, not, ◌&&◌, ◌||◌, Option, none, some, List, [], ◌∷◌, ◌++◌, map,
  ◌==◌, if◌then◌else◌, length,
}
use for_visibility.Text.{Bytes, text, bytes_beq, join}
use for_visibility.Text.Decimal.{itoa}
use for_visibility.Text.Address.{Ip, ip_string, hex_digit}
use for_visibility.Wire.{at}
use for_visibility.Gnmi.{
  PathElem, Update, TypedValue, uint_val, Effect, cache_update, emit, elems_path, leaf_update,
}

unfoldable pub oper_status : OperState → Bytes
oper_status oper_up = text "UP"
oper_status oper_down = text "DOWN"
oper_status oper_lower_layer_down = text "LOWER_LAYER_DOWN"
oper_status oper_dormant = text "DORMANT"
oper_status oper_testing = text "TESTING"
oper_status oper_not_present = text "NOT_PRESENT"
oper_status oper_unknown = text "UNKNOWN"

unfoldable pub link_updates : LinkAttrs → List Update
unfolding iface_elems oper_status
link_updates a =
    leaf_update (iface_elems a.name (text "name")) a.name
    ∷ leaf_update (iface_elems a.name (text "admin-status"))
        (if a.up then text "UP" else text "DOWN")
    ∷ leaf_update (iface_elems a.name (text "oper-status")) (oper_status a.oper_state)
    ∷ leaf_update (iface_elems a.name (text "type")) a.link_type
    ∷ record { path = elems_path (iface_elems a.name (text "ifindex")); val = uint_val a.index }
    ∷ record { path = elems_path (iface_elems a.name (text "mtu")); val = uint_val a.mtu }
    ∷ []

unfoldable pub write_link_state : LinkAttrs → Effect
write_link_state a = cache_update (text "openconfig") (link_updates a) []

-- one round of `linkLoop`: `del` is RTM_DELLINK
unfoldable pub link_event : Bool → LinkAttrs → List Effect
unfolding write_link_state oper_status
link_event true a =
    cache_update (text "openconfig") [] (elems_path (iface_elems a.name []) ∷ [])
    ∷ emit (text "netlink") (text "link-down") a.name (text "link removed") true
    ∷ []
link_event false a =
    let oper = oper_status a.oper_state in
    let kind = if bytes_beq oper (text "UP") then text "link-up" else text "link-down" in
    write_link_state a ∷ emit (text "netlink") kind a.name (text "oper=" ++ oper) true ∷ []

unfoldable pub is_unicast_mac : Bytes → Bool
is_unicast_mac addr = (length addr == 6) && (at addr 0 % 2 == 0)

-- net.HardwareAddr.String
unfoldable pub mac_string : Bytes → Bytes
mac_string addr =
    join (map (λ b. hex_digit (b / 16 % 16) ∷ hex_digit (b % 16) ∷ []) addr) (text ":")

-- the name of LinkByIndex, or ""
abbrev pub name_or_empty : Option LinkAttrs → Bytes
name_or_empty none = []
name_or_empty (some a) = a.name

unfoldable pub write_fdb : KernelView → Neigh → Effect
unfolding fdb_elems mac_string
write_fdb kernel n =
    let mac = mac_string n.hardware_addr in
    let vlan = itoa n.vlan in
    cache_update (text "openconfig")
      (leaf_update (fdb_elems mac vlan (text "mac-address")) mac
        ∷ leaf_update (fdb_elems mac vlan (text "interface"))
            (name_or_empty (kernel.link_by_index n.link_index))
        ∷ [])
      []

-- one round of `neighLoop`: `del` is RTM_DELNEIGH
unfoldable pub neigh_event : KernelView → Bool → Neigh → List Effect
unfolding write_fdb
neigh_event kernel del n =
    let gone = fdb_elems (mac_string n.hardware_addr) (itoa n.vlan) [] in
    if not n.bridge || not (is_unicast_mac n.hardware_addr)
    then []
    else if del
    then cache_update (text "openconfig") [] (elems_path gone ∷ []) ∷ []
    else write_fdb kernel n ∷ []

unfoldable pub fdb_entries : KernelView → List Neigh → List Effect
unfolding write_fdb
fdb_entries kernel [] = []
fdb_entries kernel (n ∷ ns) =
    let rest = fdb_entries kernel ns in
    if not (is_unicast_mac n.hardware_addr) then rest else write_fdb kernel n ∷ rest

unfoldable pub snapshot_fdb : KernelView → List Effect
unfolding fdb_entries
snapshot_fdb kernel = elim kernel.neigh_list [ none ↦ [] | some ns ↦ fdb_entries kernel ns ]

abbrev pub next_hop_text : MplsRoute → Bytes
next_hop_text r =
    if not (bytes_beq r.via [])
    then ip_string r.via
    else if not (bytes_beq r.gw [])
    then ip_string r.gw
    else []

abbrev pub out_labels : Option (List ℕ) → Bytes
out_labels none = []
out_labels (some labels) = ints_csv labels

unfoldable pub mpls_updates : KernelView → ℕ → MplsRoute → List Update
unfolding mpls_elems ints_csv
mpls_updates kernel label r =
    leaf_update (mpls_elems label (text "in-label")) (itoa label)
    ∷ leaf_update (mpls_elems label (text "out-label")) (out_labels r.new_dst)
    ∷ leaf_update (mpls_elems label (text "next-hop")) (next_hop_text r)
    ∷ leaf_update (mpls_elems label (text "interface"))
        (if r.link_index == 0 then [] else name_or_empty (kernel.link_by_index r.link_index))
    ∷ []

unfoldable pub mpls_entries : KernelView → List MplsRoute → List Effect
unfolding mpls_updates
mpls_entries kernel [] = []
mpls_entries kernel (r ∷ rs) = elim r.mpls_dst [
  | none ↦ mpls_entries kernel rs
  | some label ↦ cache_update (text "frr") (mpls_updates kernel label r) [] ∷ mpls_entries kernel rs
]

unfoldable pub snapshot_mpls : KernelView → List Effect
unfolding mpls_entries
snapshot_mpls kernel = elim kernel.mpls_list [ none ↦ [] | some rs ↦ mpls_entries kernel rs ]

unfoldable pub addr_updates : Bytes → Addr → List Update
unfolding addr_elems
addr_updates name a =
    let ip = ip_string a.ip in
    leaf_update (addr_elems name ip (text "ip")) ip
    ∷ leaf_update (addr_elems name ip (text "prefix-length")) (itoa a.prefix_len)
    ∷ []

unfoldable pub addr_entries : Bytes → List Addr → List Effect
unfolding addr_updates
addr_entries name [] = []
addr_entries name (a ∷ addrs) =
    let rest = addr_entries name addrs in
    if not a.ip_net then rest else cache_update (text "openconfig") (addr_updates name a) [] ∷ rest

unfoldable pub link_addrs : KernelView → LinkAttrs → List Effect
unfolding addr_entries
link_addrs kernel l = elim (kernel.addr_list l) [
  | none ↦ []
  | some addrs ↦ addr_entries l.name addrs
]

unfoldable pub counter_updates : Bytes → Statistics → List Update
unfolding counter_update
counter_updates name s =
    counter_update name (text "in-octets") s.rx_bytes
    ∷ counter_update name (text "out-octets") s.tx_bytes
    ∷ counter_update name (text "in-pkts") s.rx_packets
    ∷ counter_update name (text "out-pkts") s.tx_packets
    ∷ counter_update name (text "in-errors") s.rx_errors
    ∷ counter_update name (text "out-errors") s.tx_errors
    ∷ counter_update name (text "in-discards") s.rx_dropped
    ∷ counter_update name (text "out-discards") s.tx_dropped
    ∷ []

unfoldable pub link_counters : LinkAttrs → List Effect
unfolding counter_updates
link_counters a = elim a.statistics [
  | none ↦ []
  | some s ↦ cache_update (text "openconfig") (counter_updates a.name s) [] ∷ []
]

-- the effects of `f` on every link, in order; `none` is the error of LinkList
unfoldable pub each_link : Option (List LinkAttrs) → (LinkAttrs → List Effect) → List Effect
each_link none f = []
each_link (some []) f = []
each_link (some (l ∷ ls)) f = f l ++ each_link (some ls) f

unfoldable pub snapshot_addrs : KernelView → List Effect
unfolding each_link
snapshot_addrs kernel = each_link kernel.link_list (link_addrs kernel)

unfoldable pub sample_counters : KernelView → List Effect
unfolding each_link
sample_counters kernel = each_link kernel.link_list link_counters

-- `snapshot`: when the first LinkList fails, nothing is done
unfoldable pub snapshot : KernelView → List Effect
unfolding each_link sample_counters snapshot_fdb snapshot_mpls snapshot_addrs
snapshot kernel = elim kernel.link_list [
  | none ↦ []
  | some links ↦
      each_link (some links) (λ l. write_link_state l ∷ [])
      ++ sample_counters kernel
      ++ snapshot_fdb kernel
      ++ snapshot_mpls kernel
      ++ snapshot_addrs kernel
]

-- one tick of `counterLoop`
unfoldable pub counter_tick : KernelView → List Effect
unfolding sample_counters snapshot_mpls snapshot_addrs
counter_tick kernel = sample_counters kernel ++ snapshot_mpls kernel ++ snapshot_addrs kernel
