-- ===== src/Vrf.antt =====
-- internal/ingest/vrf.go: routing-table ids to names of VRF devices. What `netlink.LinkList` answers
-- at a call is an argument: `none` is its error.
use for_visibility.Prelude.{
  ℕ, ◌≡◌, ◌≢◌, refl, ◌||◌, Option, none, some, List, [], ◌∷◌, ◌++◌, map, ◌==◌, arith, if◌then◌else◌,
}
use for_visibility.Prelude.Assoc.{Map, nat_eq, lookup, insert, lookup-insert}
use for_visibility.Text.{Bytes, text}
use for_visibility.Text.Decimal.{itoa}

-- netlink.Link, as far as `Refresh` looks
pub data Link : Type 0 where
  vrf : ℕ → Bytes → Link
  other : Bytes → Link

abbrev pub Kernel : Type 0
Kernel = Option (List Link)

abbrev pub Resolver : Type 0
Resolver = Map ℕ Bytes

table_names : Resolver → List Link → Resolver
table_names m [] = m
table_names m (vrf table name ∷ links) = table_names (insert table name m) links
table_names m (other name ∷ links) = table_names m links

-- A failed dump keeps the old map.
unfoldable pub refresh : Kernel → Resolver → Resolver
unfolding table_names
refresh none m = m
refresh (some links) m = table_names [] links

abbrev pub table_label : ℕ → Bytes
table_label table = text "table:" ++ itoa table

-- the second lookup, after the refresh
unfoldable pub name_refreshed : Resolver → ℕ → Bytes × Resolver
name_refreshed m table = elim (lookup table m) [ some n ↦ (n, m) | none ↦ (table_label table, m) ]

-- (*VRFResolver).Name, with the map after it
unfoldable pub name : Kernel → Resolver → ℕ → Bytes × Resolver
unfolding refresh name_refreshed
name kernel m table =
    if table == 0 || table == 254
    then (text "default", m)
    else if table == 255
    then (text "local", m)
    else elim (lookup table m) [ some n ↦ (n, m) | none ↦ name_refreshed (refresh kernel m) table ]

-- (*VRFResolver).NonDefaultNames, with the map after it
unfoldable pub non_default_names : Kernel → Resolver → List Bytes × Resolver
unfolding refresh
non_default_names kernel m = let m' = refresh kernel m in (map (λ (e : ℕ × Bytes). e.1) m', m')

-- What the kernel says of a table: of several devices for one table the last counts.
abbrev pub later : Option Bytes → Option Bytes → Option Bytes
later (some n) old = some n
later none old = old

abbrev pub device_of : ℕ → List Link → Option Bytes
device_of table [] = none
device_of table (vrf t n ∷ links) =
    later (device_of table links) (if t == table then some n else none)
device_of table (other n ∷ links) = device_of table links

lookup-table_names :
    (table : ℕ) (m : Resolver) (links : List Link)
    → lookup table (table_names m links) ≡ later (device_of table links) (lookup table m)
unfolding table_names
lookup-table_names table m [] = refl
lookup-table_names table m (vrf t n ∷ links) =
    ground (arith, lookup-table_names table (insert t n m) links, lookup-insert table t n m)
lookup-table_names table m (other n ∷ links) = lookup-table_names table m links

abbrev device_name : ℕ → Option Bytes → Bytes
device_name table (some n) = n
device_name table none = table_label table

-- A table that is none of the three reserved ones and not in the map yet gets the name that the
-- kernel has for it now, and `table:<id>` if it has none.
pub name-unknown :
    (links : List Link) (m : Resolver) (table : ℕ)
    → table ≢ 0
    → table ≢ 254
    → table ≢ 255
    → lookup table m ≡ none
    → (name (some links) m table).0 ≡ device_name table (device_of table links)
unfolding name lookup
name-unknown links m table h0 h254 h255 unknown = ground (arith, lookup-table_names table [] links)

-- Whatever the kernel answers, a table keeps the name that the map has for it, and the map is not
-- refreshed for it.
pub name-known :
    (kernel : Kernel) (m : Resolver) (table : ℕ) (n : Bytes)
    → table ≢ 0
    → table ≢ 254
    → table ≢ 255
    → lookup table m ≡ some n
    → name kernel m table ≡ (n, m)
unfolding name
name-known kernel m table n h0 h254 h255 known = ground arith
