-- ===== src/Lldp/Shapes.antt =====
-- The two shapes in which lldpd renders its interfaces.
use for_visibility.Prelude.{◌≡◌, refl, false, some, []}
use for_visibility.Prelude.Assoc.{Map, insert}
use for_visibility.Text.{Bytes, text, bytes_beq, bytes_eq}
use for_visibility.Lldp.Values.{
  Json, arr, obj, Items, no_items, item, Fields, no_fields, field, as_map, as_str, get,
}
use for_visibility.Lldp.{LldpNbr, parse_iface, put_ifaces, put_item, put_items, parse_ifaces}

-- `[{<ifname>: {...}}, ...]` for `{<ifname>: {...}, ...}`
unfoldable pub as_items : Fields → Items
as_items no_fields = no_items
as_items (field name v m) = item (obj (field name v no_fields)) (as_items m)

put_item-single :
    (res : Map Bytes LldpNbr) (name : Bytes) (v : Json)
    → bytes_beq name (text "name") ≡ false
    → put_item res (some (field name v no_fields)) ≡ insert name (parse_iface name (as_map v)) res
unfolding put_item put_ifaces get as_str bytes_beq
put_item-single res name v h = rw h refl

put_ifaces-cons :
    (res : Map Bytes LldpNbr) (name : Bytes) (v : Json) (m : Fields)
    → put_ifaces res (field name v m) ≡ put_ifaces (insert name (parse_iface name (as_map v)) res) m
unfolding put_ifaces
put_ifaces-cons res name v m = refl

-- No interface is called "name".
abbrev pub Unambiguous : Fields → Type 0
Unambiguous no_fields = Unit
Unambiguous (field name v m) = (bytes_beq name (text "name") ≡ false) × Unambiguous m

put_items-cons :
    (res : Map Bytes LldpNbr) (name : Bytes) (v : Json) (m : Fields)
    → put_items res (as_items (field name v m))
      ≡ put_items (put_item res (some (field name v no_fields))) (as_items m)
unfolding put_items as_items as_map
put_items-cons res name v m = refl

put_items-as_items :
    (res : Map Bytes LldpNbr) (m : Fields)
    → Unambiguous m
    → put_items res (as_items m) ≡ put_ifaces res m
put_items-as_items res no_fields h = unfold put_ifaces put_items as_items in refl
put_items-as_items res (field name v m) (h, hs) =
    rw (put_items-cons res name v m, put_item-single res name v h, put_ifaces-cons res name v m)
      (put_items-as_items (insert name (parse_iface name (as_map v)) res) m hs)

-- The object form of the interfaces and the array of one-key objects are read alike, whatever the
-- values in them, if no interface is called "name".
pub parse_ifaces-shapes :
    (m : Fields) → Unambiguous m → parse_ifaces (arr (as_items m)) ≡ parse_ifaces (obj m)
unfolding parse_ifaces
parse_ifaces-shapes m h = put_items-as_items [] m h
