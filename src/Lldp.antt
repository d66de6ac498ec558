-- ===== src/Lldp.antt =====
-- internal/ingest/lldp.go: the neighbors that lldpcli shows (`parseLLDP`, `parseIface`,
-- `fillChassis`) and the snapshot (`reconcile`). What encoding/json decodes is an input; Race has the
-- two goroutines that call `reconcile`.
pub mod Values
pub mod Shapes
pub mod Race
pub mod Remembered
use for_visibility.Prelude.{
  Bool, true, false, Option, none, some, List, [], ◌∷◌, ◌++◌, if◌then◌else◌,
}
use for_visibility.Prelude.Assoc.{Map, lookup, insert}
use for_visibility.Text.{Bytes, text, bytes_beq, bytes_eq}
use for_visibility.Gnmi.{PathElem, Effect, cache_update, elems_path, leaf_update}
use for_visibility.Gnmi.Paths.{plain, keyed, state_leaf}
use for_visibility.Lldp.Values.{
  Json, str, arr, obj, other, Items, no_items, item, Fields, no_fields, field, as_map, first_obj,
  as_str, get, has, get_in,
}

pub record LldpNbr : Type 0 where
  pub ifname : Bytes
  pub chassis_id : Bytes
  pub port_id : Bytes
  pub sys_name : Bytes
  pub sys_descr : Bytes
  pub mgmt_ip : Bytes

-- ifname -> the chassis id that is in the cache
pub record Lldp : Type 0 where
  pub seen : Map Bytes Bytes

-- `ch` may be the nil map
unfoldable pub fill_chassis : LldpNbr → Option Fields → LldpNbr
unfolding as_map as_str get_in
fill_chassis nb ch = record nb {
  chassis_id = elim (as_map (get_in (text "id") ch)) [
    | none ↦ nb.chassis_id
    | some id ↦ as_str (get (text "value") id)
  ];
  sys_descr = as_str (get_in (text "descr") ch);
  mgmt_ip = as_str (get_in (text "mgmt-ip") ch);
}

-- the chassis, given directly or under the system's name; of several names the range takes one
unfoldable pub read_chassis : LldpNbr → Fields → LldpNbr
unfolding fill_chassis
read_chassis nb no_fields = nb
read_chassis nb (field name v m) =
    if has (text "id") (field name v m)
    then fill_chassis (record nb { sys_name = as_str (get (text "name") (field name v m)) })
        (some (field name v m))
    else fill_chassis (record nb { sys_name = name }) (as_map v)

unfoldable pub read_port : LldpNbr → Fields → LldpNbr
unfolding as_map as_str get
read_port nb port =
    let id : Bytes = elim (as_map (get (text "id") port)) [
      | none ↦ nb.port_id
      | some id ↦ as_str (get (text "value") id)
    ] in
    record nb { port_id = if bytes_beq id [] then as_str (get (text "descr") port) else id }

unfoldable pub fall_back : LldpNbr → LldpNbr
fall_back nb = record nb {
  chassis_id = if bytes_beq nb.chassis_id [] then nb.sys_name else nb.chassis_id;
}

unfoldable pub parse_iface : Bytes → Option Fields → LldpNbr
unfolding as_map get_in read_chassis read_port fall_back
parse_iface ifname ifm =
    let nb : LldpNbr = record {
      ifname = ifname;
      chassis_id = [];
      port_id = [];
      sys_name = [];
      sys_descr = [];
      mgmt_ip = [];
    } in
    let nb' : LldpNbr = elim (as_map (get_in (text "chassis") ifm)) [
      | none ↦ nb
      | some ch ↦ read_chassis nb ch
    ] in
    let nb'' : LldpNbr = elim (as_map (get_in (text "port") ifm)) [
      | none ↦ nb'
      | some port ↦ read_port nb' port
    ] in
    fall_back nb''

-- `for name, v := range m { res[name] = parseIface(name, asMap(v)) }`
unfoldable pub put_ifaces : Map Bytes LldpNbr → Fields → Map Bytes LldpNbr
unfolding parse_iface
put_ifaces res no_fields = res
put_ifaces res (field name v m) = put_ifaces (insert name (parse_iface name (as_map v)) res) m

-- one element of the array form: `{name: ..., ...}`, or `{<ifname>: {...}}`
unfoldable pub put_item : Map Bytes LldpNbr → Option Fields → Map Bytes LldpNbr
unfolding put_ifaces
put_item res none = res
put_item res (some m) =
    let name = as_str (get (text "name") m) in
    if bytes_beq name [] then put_ifaces res m else insert name (parse_iface name (some m)) res

unfoldable pub put_items : Map Bytes LldpNbr → Items → Map Bytes LldpNbr
unfolding put_item
put_items res no_items = res
put_items res (item j js) = put_items (put_item res (as_map j)) js

unfoldable pub parse_ifaces : Json → Map Bytes LldpNbr
unfolding put_ifaces put_items
parse_ifaces (obj m) = put_ifaces [] m
parse_ifaces (arr js) = put_items [] js
parse_ifaces _ = []

-- `parseLLDP`; `none` is what json.Unmarshal refuses
unfoldable pub parse_lldp : Option Fields → Map Bytes LldpNbr
unfolding first_obj get parse_ifaces
parse_lldp none = []
parse_lldp (some root) = elim (first_obj (get (text "lldp") root)) [
  | none ↦ []
  | some lldp ↦ parse_ifaces (get (text "interface") lldp)
]

unfoldable pub lldp_elems : Bytes → Bytes → Bytes → List PathElem
lldp_elems ifname id leaf =
    plain (text "lldp")
    ∷ plain (text "interfaces")
    ∷ keyed (text "interface") (text "name") ifname
    ∷ plain (text "neighbors")
    ∷ keyed (text "neighbor") (text "id") id
    ∷ state_leaf leaf

unfoldable pub nbr_update : Bytes → LldpNbr → Effect
unfolding lldp_elems
nbr_update ifn nb =
    cache_update (text "openconfig")
      (leaf_update (lldp_elems ifn nb.chassis_id (text "chassis-id")) nb.chassis_id
        ∷ leaf_update (lldp_elems ifn nb.chassis_id (text "port-id")) nb.port_id
        ∷ leaf_update (lldp_elems ifn nb.chassis_id (text "system-name")) nb.sys_name
        ∷ leaf_update (lldp_elems ifn nb.chassis_id (text "system-description")) nb.sys_descr
        ∷ leaf_update (lldp_elems ifn nb.chassis_id (text "management-address")) nb.mgmt_ip
        ∷ [])
      []

-- the loop over `cur`: `seen` after it, and the calls
unfoldable pub report_ifaces : Map Bytes Bytes → Map Bytes LldpNbr → Map Bytes Bytes × List Effect
unfolding nbr_update
report_ifaces seen [] = (seen, [])
report_ifaces seen ((ifn, nb) ∷ cur) =
    let skip = report_ifaces seen cur in
    let (seen', effects) = report_ifaces (insert ifn nb.chassis_id seen) cur in
    if bytes_beq nb.chassis_id [] then skip else (seen', nbr_update ifn nb ∷ effects)

unfoldable pub delete_gone : Option Bytes → Bytes → Bytes → List Effect
unfolding lldp_elems
delete_gone (some seen) ifn id = []
delete_gone none ifn id =
    cache_update (text "openconfig") [] (elems_path (lldp_elems ifn id []) ∷ []) ∷ []

-- the loop over `l.seen`
unfoldable pub delete_ifaces : Map Bytes Bytes → Map Bytes Bytes → List Effect
unfolding delete_gone
delete_ifaces seen [] = []
delete_ifaces seen ((ifn, id) ∷ old) =
    delete_gone (lookup ifn seen) ifn id ++ delete_ifaces seen old

-- `none` is an error of lldpcli, `some none` output that is no JSON object
unfoldable pub reconcile : Lldp → Option (Option Fields) → Lldp × List Effect
unfolding parse_lldp report_ifaces delete_ifaces
reconcile l none = (l, [])
reconcile l (some out) =
    let (seen, effects) = report_ifaces [] (parse_lldp out) in
    (record { seen = seen }, effects ++ delete_ifaces seen l.seen)
