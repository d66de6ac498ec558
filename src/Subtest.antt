-- ===== src/Subtest.antt =====
-- cmd/subtest/main.go: the client that subscribes to a shim and prints what it gets. The gRPC stream
-- is a list of responses with an error at its end.
pub mod Paths
pub mod Received
use for_visibility.Prelude.{
  ℕ, suc, ◌+◌, Bool, true, false, Option, none, some, List, [], ◌∷◌, ◌++◌, map, if◌then◌else◌,
  length,
}
use for_visibility.Prelude.Assoc.{Map}
use for_visibility.Text.{Bytes, text}
use for_visibility.Text.Decimal.{itoa}
use for_visibility.Text.Split.{split_on}
use for_visibility.Exporter.{is_empty}
use for_visibility.Gnmi.{
  PathElem, GnmiPath, TypedValue, string_val, uint_val, json_ietf_val, json_val, other_val, Update,
  Notification,
}

-- the parts that are not empty
abbrev pub named_elems : List Bytes → List PathElem
named_elems [] = []
named_elems (part ∷ parts) =
    let rest = named_elems parts in
    if is_empty part then rest else record { name = part; key = [] } ∷ rest

-- parsePath
unfoldable pub parse_path : Bytes → List PathElem
unfolding split_on
parse_path s = named_elems (split_on 47 s)

-- "[%s=%s]" of every key
unfoldable pub keys_str : Map Bytes Bytes → Bytes
keys_str [] = []
keys_str ((k, v) ∷ keys) = 91 ∷ k ++ 61 ∷ v ++ 93 ∷ keys_str keys

unfoldable pub elems_str : List PathElem → Bytes
unfolding keys_str
elems_str [] = []
elems_str (e ∷ elems) = 47 ∷ e.name ++ keys_str e.key ++ elems_str elems

-- prefixElems; `none` is a nil path
abbrev pub prefix_elems : Option GnmiPath → List PathElem
prefix_elems none = []
prefix_elems (some p) = p.elem

-- `prefix.Origin + ":"`, if there is one
unfoldable pub origin_str : Option GnmiPath → Bytes
origin_str none = []
origin_str (some p) = if is_empty p.origin then [] else p.origin ++ 58 ∷ []

-- pathStr
unfoldable pub path_str : Option GnmiPath → GnmiPath → Bytes
unfolding elems_str origin_str
path_str prefix p = origin_str prefix ++ elems_str (prefix_elems prefix ++ p.elem)

-- valStr; `print` is what %v makes of the other kinds of value. The shim sends no integers but
-- unsigned ones.
unfoldable pub val_str : (TypedValue → Bytes) → Option TypedValue → Bytes
unfolding text itoa
val_str print none = text "<nil>"
val_str print (some (string_val s)) = s
val_str print (some (uint_val n)) = itoa n
val_str print (some (json_ietf_val s)) = print (json_ietf_val s)
val_str print (some (json_val s)) = print (json_val s)
val_str print (some other_val) = print other_val

-- the mode of the subscription and the request that `main` sends
pub data Mode : Type 0 where
  stream : Mode
  once : Mode

pub record SubscribeRequest : Type 0 where
  pub prefix : Option GnmiPath
  pub mode : Mode
  pub subscription : List GnmiPath

pub record Flags : Type 0 where
  pub target : Bytes
  pub origin : Bytes
  pub path : Bytes
  pub once_flag : Bool

unfoldable pub request_of : Flags → SubscribeRequest
unfolding parse_path
request_of f = record {
  prefix = some record { target = f.target; origin = f.origin; elem = [] };
  mode = if f.once_flag then once else stream;
  subscription = record { target = []; origin = []; elem = parse_path f.path } ∷ [];
}

-- what Recv returns: a notification, the end of the snapshot, or a response of another kind
pub data Response : Type 0 where
  update : Notification → Response
  sync_response : Response
  other_response : Response

-- a line that the client prints
pub data Printed : Type 0 where
  updated : Bytes → Bytes → Printed
  removed : Bytes → Printed
  synced : ℕ → ℕ → Printed

module _ (print : TypedValue → Bytes) where
  abbrev pub update_line : GnmiPath → Update → Printed
  update_line prefix u = updated (path_str (some prefix) u.path) (val_str print (some u.val))

  abbrev pub delete_line : GnmiPath → GnmiPath → Printed
  delete_line prefix p = removed (path_str (some prefix) p)

  -- The loop of `main`: the lines, from the counters on. The error of Recv at the end of the stream
  -- ends it, and so does the end of the snapshot in ONCE mode.
  unfoldable pub receive_loop : Bool → ℕ → ℕ → List Response → List Printed
  receive_loop only_once updates deletes [] = []
  receive_loop only_once updates deletes (update n ∷ responses) =
      map (update_line n.prefix) n.update
      ++ (map (delete_line n.prefix) n.delete
          ++ receive_loop only_once (updates + length n.update) (deletes + length n.delete)
              responses)
  receive_loop only_once updates deletes (sync_response ∷ responses) =
      let rest = receive_loop only_once updates deletes responses in
      synced updates deletes ∷ (if only_once then [] else rest)
  receive_loop only_once updates deletes (other_response ∷ responses) =
      receive_loop only_once updates deletes responses
