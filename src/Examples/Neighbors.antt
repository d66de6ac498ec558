-- ===== src/Examples/Neighbors.antt =====
-- OSPF neighbors.
use for_visibility.Prelude.{◌≡◌, refl, none, some, [], ◌∷◌}
use for_visibility.Prelude.Assoc.{lookup}
use for_visibility.Text.{text, bytes_eq, bytes_beq}
use for_visibility.Ospf.{parse_nbr, Ospf, Neighbors, NbrJson, parse_ospf_nbrs, reconcile}
use for_visibility.Ospf.Reconcile.{iface_of, state_of, reconcile-snapshot}
use for_visibility.Gnmi.Paths.{ospf_nbr_elems}
use for_visibility.Ospf.Moved.{Untouched, reconcile-moved}

abbrev full : NbrJson
full = record {
  nbr_state = text "Full/DR";
  converged = [];
  iface_name = text "eth0:10.0.0.1";
  iface_address = text "10.0.0.2";
}

abbrev one_neighbor : Neighbors
one_neighbor = (text "2.2.2.2", full ∷ []) ∷ []

abbrev synced : Ospf
synced = record { seen = []; st = [] }

reconcile-snapshot_example :
    let o' = (reconcile synced (some (some one_neighbor))).0 in
    (lookup (text "2.2.2.2") o'.seen
      ≡ iface_of (lookup (text "2.2.2.2") (parse_ospf_nbrs (some one_neighbor))))
    × (lookup (text "2.2.2.2") o'.st
        ≡ state_of (lookup (text "2.2.2.2") (parse_ospf_nbrs (some one_neighbor))))
    × (lookup (text "2.2.2.2") o'.seen ≡ none → lookup (text "2.2.2.2") o'.st ≡ none)
unfolding parse_ospf_nbrs lookup
reconcile-snapshot_example =
    reconcile-snapshot synced (some one_neighbor) (λ rid e. e) (refl, tt) (text "2.2.2.2")

-- remembered on eth1 before
abbrev on_eth1 : Ospf
on_eth1 = record {
  seen = (text "2.2.2.2", text "eth1") ∷ [];
  st = (text "2.2.2.2", text "FULL") ∷ [];
}

reconcile-moved_example :
    Untouched
      (ospf_nbr_elems (text "eth1") (text "2.2.2.2") (text "adjacency-state"))
      (reconcile on_eth1 (some (some one_neighbor))).1
    × (lookup (text "2.2.2.2") (reconcile on_eth1 (some (some one_neighbor))).0.seen
        ≡ some (text "eth0"))
unfolding parse_ospf_nbrs lookup bytes_beq text
reconcile-moved_example =
    reconcile-moved on_eth1 (some one_neighbor) (text "2.2.2.2") (text "eth1")
      (text "adjacency-state") (parse_nbr (text "2.2.2.2") full) (refl, tt) refl refl
