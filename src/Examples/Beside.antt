-- ===== src/Examples/Beside.antt =====
-- An OSPF and an LLDP snapshot on one cache, the LLDP update first.
use for_visibility.Prelude.{◌≡◌, refl, some, [], ◌∷◌}
use for_visibility.Prelude.Assoc.{lookup, insert}
use for_visibility.Text.{text, bytes_beq, bytes_eq}
use for_visibility.Gnmi.Paths.{plain}
use for_visibility.Cache.{run_effects}
use for_visibility.Cache.Interleaved.{done, mine, others}
use for_visibility.Ospf.{Ospf, reconcile}
use for_visibility.Ospf.Beside.{ospf_leaf-Interleaved}
use for_visibility.Lldp.Values.{has}
use for_visibility.Lldp.{Lldp, nbr_update}
use for_visibility.Lldp as Lldp
use for_visibility.Examples.Memory.{memory, no_leaves, ticking}
use for_visibility.Examples.Chassis.{shown, chassis}
use for_visibility.Examples.Triggers.{neighbor}

abbrev no_nbrs : Ospf
no_nbrs = record { seen = []; st = [] }

abbrev no_chassis : Lldp
no_chassis = record { seen = [] }

ospf_leaf-Interleaved_example :
    memory.leaf
      (run_effects memory
        (text "frr")
        ticking
        0
        (nbr_update (text "eth0") chassis ∷ (reconcile no_nbrs (some (some neighbor))).1)
        no_leaves).0
      (text "frr")
      (text "openconfig")
      (plain (text "network-instances") ∷ [])
    ≡ memory.leaf
        (run_effects memory
          (text "frr")
          ticking
          0
          (reconcile no_nbrs (some (some neighbor))).1
          no_leaves).0
        (text "frr")
        (text "openconfig")
        (plain (text "network-instances") ∷ [])
unfolding reconcile lookup Lldp.reconcile bytes_beq text insert has run_effects
ospf_leaf-Interleaved_example =
    ospf_leaf-Interleaved memory (text "frr") ticking ticking no_leaves no_nbrs
      (some (some neighbor)) no_chassis (some shown) _ [] (others _ (mine _ done)) refl refl
