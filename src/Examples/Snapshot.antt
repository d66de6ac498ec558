-- ===== src/Examples/Snapshot.antt =====
-- A snapshot of two paths, and a number of the container.
use for_visibility.Prelude.{none, some, [], ◌∷◌, if◌then◌else◌, refl, inl, inr, arith}
use for_visibility.Text.{text, bytes_beq}
use for_visibility.Gnmi.{GnmiPath, elems_path, leaf_update}
use for_visibility.Gnmi.Paths.{plain}
use for_visibility.Server.{
  Backend, GetRequest, empty_path, Outcome, get_snapshot, get_snapshot-Outcome,
}

abbrev mtu_path : GnmiPath
mtu_path = elems_path (plain (text "mtu") ∷ [])

abbrev name_path : GnmiPath
name_path = elems_path (plain (text "name") ∷ [])

-- a cache that has one notification for every path of the target "router"
abbrev router : Backend
router = record {
  complete = λ prefix p. some (text "openconfig" ∷ []);
  query = λ target q.
      if bytes_beq target (text "router")
      then some (
          record {
            timestamp = 1;
            prefix = empty_path;
            update = leaf_update (plain (text "mtu") ∷ []) (text "1500") ∷ [];
            delete = [];
          }
          ∷ [])
      else none;
}

-- a request without a target
abbrev two_paths : GetRequest
two_paths = record { prefix = empty_path; path = mtu_path ∷ name_path ∷ [] }

get_snapshot-Outcome_example :
    Outcome router
      (text "router")
      empty_path
      (mtu_path ∷ name_path ∷ [])
      (get_snapshot router (text "router") two_paths)
get_snapshot-Outcome_example =
    get_snapshot-Outcome router (text "router") two_paths (text "router")
      (mtu_path ∷ name_path ∷ []) (inl (refl, refl), inr (λ e. ground (arith, e), refl))
