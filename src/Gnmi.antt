-- ===== src/Gnmi.antt =====
-- The gNMI messages that the ingesters build (the types of openconfig/gnmi's proto package, as far
-- as the source uses them), the two calls that an ingester makes, and the helpers of bmp.go, fpm.go
-- and netlink.go that build values and updates.
pub mod Paths
pub mod Match
use for_visibility.Prelude.{ℕ, Bool, List, [], ◌∷◌}
use for_visibility.Prelude.Assoc.{Map}
use for_visibility.Text.{Bytes}

pub record PathElem : Type 0 where
  pub name : Bytes
  pub key : Map Bytes Bytes

pub record GnmiPath : Type 0 where
  pub target : Bytes
  pub origin : Bytes
  pub elem : List PathElem

pub data TypedValue : Type 0 where
  string_val : Bytes → TypedValue
  uint_val : ℕ → TypedValue
  json_ietf_val : Bytes → TypedValue
  json_val : Bytes → TypedValue
  other_val : TypedValue

pub record Update : Type 0 where
  pub path : GnmiPath
  pub val : TypedValue

pub record Notification : Type 0 where
  pub timestamp : ℕ
  pub prefix : GnmiPath
  pub update : List Update
  pub delete : List GnmiPath

-- What an ingester does to the rest of the shim: `c.Update(origin, ups, dels)` on the cache, and
-- `cor.Emit(bus, kind, key, detail, root)` on the correlator.
pub data Effect : Type 0 where
  cache_update : Bytes → List Update → List GnmiPath → Effect
  emit : Bytes → Bytes → Bytes → Bytes → Bool → Effect

-- &gnmipb.Path{Elem: elems}
abbrev pub elems_path : List PathElem → GnmiPath
elems_path elems = record { target = []; origin = []; elem = elems }

abbrev pub str_val : Bytes → TypedValue
str_val s = string_val s

abbrev pub leaf_update : List PathElem → Bytes → Update
leaf_update elems val = record { path = elems_path elems; val = str_val val }
