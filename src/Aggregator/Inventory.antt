-- ===== src/Aggregator/Inventory.antt =====
-- cmd/trace-aggregator/main.go has a `parseInventory` of its own, without the test for empty parts.
use for_visibility.Prelude.{◌≡◌, refl, sym, ap, ◌∙◌, List, [], ◌∷◌, if◌then◌else◌}
use for_visibility.Prelude.Assoc.{Map}
use for_visibility.Text.{Bytes}
use for_visibility.Text.Split.{split_on, index_byte, trim_space}
use for_visibility.Exporter.{is_empty, put_node, put_nodes}
use for_visibility.Exporter.{parse_inventory as exporter_inventory}

abbrev pub put_all : List Bytes → Map Bytes Bytes → Map Bytes Bytes
put_all [] m = m
put_all (kv ∷ kvs) m = put_all kvs (put_node (trim_space kv) m)

-- parseInventory
unfoldable pub parse_inventory : Bytes → Map Bytes Bytes
unfolding split_on
parse_inventory s = put_all (split_on 44 s) []

put_node-empty :
    (kv : Bytes) (m : Map Bytes Bytes) → (if is_empty kv then m else put_node kv m) ≡ put_node kv m
unfolding index_byte
put_node-empty [] m = refl
put_node-empty (c ∷ kv) m = refl

put_all-put_nodes : (kvs : List Bytes) (m : Map Bytes Bytes) → put_all kvs m ≡ put_nodes kvs m
put_all-put_nodes [] m = refl
put_all-put_nodes (kv ∷ kvs) m =
    put_all-put_nodes kvs (put_node (trim_space kv) m)
    ∙ ap (put_nodes kvs) (sym (put_node-empty (trim_space kv) m))

-- The aggregator reads an inventory as the exporters do.
pub parse_inventory-same : (s : Bytes) → parse_inventory s ≡ exporter_inventory s
unfolding exporter_inventory parse_inventory
parse_inventory-same s = put_all-put_nodes (split_on 44 s) []
