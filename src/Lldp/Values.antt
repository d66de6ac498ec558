-- ===== src/Lldp/Values.antt =====
-- What encoding/json decodes into `any`, and the coercions of internal/ingest/lldp.go (`asMap`,
-- `firstObj`, `asStr`). A number, a Boolean and null are `other`: the source never looks at them.
use for_visibility.Prelude.{Bool, true, false, Option, none, some, [], if◌then◌else◌}
use for_visibility.Text.{Bytes, bytes_beq}

mutual
  pub data Json : Type 0 where
    str : Bytes → Json
    arr : Items → Json
    obj : Fields → Json
    other : Json

  pub data Items : Type 0 where
    no_items : Items
    item : Json → Items → Items

  -- a `map[string]any`, in the order of a range over it
  pub data Fields : Type 0 where
    no_fields : Fields
    field : Bytes → Json → Fields → Fields

-- `none` is the nil map
unfoldable pub as_map : Json → Option Fields
as_map (obj m) = some m
as_map _ = none

unfoldable pub first_obj : Json → Option Fields
unfolding as_map
first_obj (obj m) = some m
first_obj (arr (item j js)) = as_map j
first_obj _ = none

unfoldable mutual
  pub as_str : Json → Bytes
  as_str (str s) = s
  as_str (arr js) = first_str js
  as_str (obj m) = []
  as_str other = []

  pub first_str : Items → Bytes
  first_str no_items = []
  first_str (item j js) = as_str j

-- m[k], where a missing key gives nil
unfoldable pub get : Bytes → Fields → Json
get k no_fields = other
get k (field j v m) = let rest = get k m in if bytes_beq j k then v else rest

-- `_, direct := m[k]`
unfoldable pub has : Bytes → Fields → Bool
has k no_fields = false
has k (field j v m) = let rest = has k m in if bytes_beq j k then true else rest

-- v[k] for a map that may be nil
unfoldable pub get_in : Bytes → Option Fields → Json
unfolding get
get_in k none = other
get_in k (some m) = get k m
