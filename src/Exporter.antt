-- ===== src/Exporter.antt =====
-- What the exporters under cmd share: reading updates (`dissect`, `sval`), the addresses of the shims
-- (`client`, `get`), and their configuration (`parseInventory`). The functions stand in
-- cmd/pathtrace-exporter/main.go, and once more in cmd/topology-exporter/main.go.
pub mod Metrics
pub mod Clients
use for_visibility.Prelude.{
  suc, Bool, true, false, Option, none, some, List, [], ◌∷◌, ◌++◌, ltb, ◌==◌, if◌then◌else◌, take,
  drop,
}
use for_visibility.Prelude.Assoc.{Map, lookup, insert}
use for_visibility.Text.{Bytes, text, bytes_eq}
use for_visibility.Text.Decimal.{itoa}
use for_visibility.Text.Split.{has_byte, index_byte, split_on, trim_by, trim_space}
use for_visibility.Gnmi.{
  PathElem, GnmiPath, TypedValue, string_val, uint_val, json_ietf_val, json_val, other_val, Update,
  Notification,
}

-- `m[k]` of a map of strings: the empty string when the key is missing
abbrev pub or_empty : Option Bytes → Bytes
or_empty (some v) = v
or_empty none = []

abbrev pub get_key : Bytes → Map Bytes Bytes → Bytes
get_key k m = or_empty (lookup k m)

-- s == ""
abbrev pub is_empty : Bytes → Bool
is_empty [] = true
is_empty (c ∷ s) = false

-- for k, v := range e.Key { keys[k] = v }
abbrev pub insert_all : Map Bytes Bytes → Map Bytes Bytes → Map Bytes Bytes
insert_all [] keys = keys
insert_all ((k, v) ∷ m) keys = insert_all m (insert k v keys)

unfoldable pub dissect_loop : List PathElem → Map Bytes Bytes → Bytes → Map Bytes Bytes × Bytes
dissect_loop [] keys leaf = (keys, leaf)
dissect_loop (e ∷ elems) keys leaf = dissect_loop elems (insert_all e.key keys) e.name

-- dissect: the keys of all elements, and the name of the last one
unfoldable pub dissect : GnmiPath → Map Bytes Bytes × Bytes
unfolding dissect_loop
dissect p = dissect_loop p.elem [] []

-- strings.Trim(s, `"`)
abbrev pub unquote : Bytes → Bytes
unquote s = trim_by (λ c. c == 34) s

unfoldable pub sval : TypedValue → Bytes
sval (string_val s) = s
sval (json_ietf_val s) = unquote s
sval (json_val s) = unquote s
sval (uint_val n) = itoa n
sval other_val = []

-- What the shim at an address answers to a Get of a path; `none` is an error or a timeout.
abbrev pub Shims : Type 0
Shims = Bytes → GnmiPath → Option (List Notification)

-- The address that `client` dials, with the default port; `none` is a node without one.
unfoldable pub address : Map Bytes Bytes → Bytes → Option Bytes
address inventory node =
    let addr = get_key node inventory in
    if is_empty addr
    then none
    else if has_byte 58 addr
    then some addr
    else some (addr ++ text ":9339")

-- ups = append(ups, n.Update...) of every notification
abbrev pub all_updates : List Notification → List Update
all_updates [] = []
all_updates (n ∷ ns) = n.update ++ all_updates ns

unfoldable pub get : Shims → Map Bytes Bytes → Bytes → GnmiPath → List Update
unfolding address
get shims inventory node p = elim (address inventory node) [
  | none ↦ []
  | some addr ↦ elim (shims addr p) [ some ns ↦ all_updates ns | none ↦ [] ]
]

-- `if i := strings.IndexByte(kv, '='); i > 0 { m[kv[:i]] = kv[i+1:] }`
abbrev pub put_node : Bytes → Map Bytes Bytes → Map Bytes Bytes
put_node kv m = elim (index_byte 61 kv) [
  | none ↦ m
  | some i ↦ if ltb 0 i then insert (take i kv) (drop (suc i) kv) m else m
]

abbrev pub put_nodes : List Bytes → Map Bytes Bytes → Map Bytes Bytes
put_nodes [] m = m
put_nodes (kv ∷ kvs) m =
    put_nodes kvs (if is_empty (trim_space kv) then m else put_node (trim_space kv) m)

-- parseInventory: "r1=172.31.0.11,r2=…"
unfoldable pub parse_inventory : Bytes → Map Bytes Bytes
unfolding split_on
parse_inventory s = put_nodes (split_on 44 s) []
