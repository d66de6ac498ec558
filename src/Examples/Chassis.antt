-- ===== src/Examples/Chassis.antt =====
-- One LLDP neighbor on eth0, and none.
use for_visibility.Prelude.{◌≡◌, refl, Option, some, [], ◌∷◌, All}
use for_visibility.Prelude.Assoc.{lookup, insert}
use for_visibility.Text.{Bytes, text, bytes_beq, bytes_eq}
use for_visibility.Gnmi.{cache_update, elems_path}
use for_visibility.Lldp.Values.{Fields, no_fields, field, obj, str, has}
use for_visibility.Lldp.{Lldp, LldpNbr, lldp_elems, parse_lldp, nbr_update, reconcile}
use for_visibility.Lldp.Race.{Phase, System, Reach, Reach-stale}
use for_visibility.Lldp.Remembered.{chassis_of, Handled, reconcile-seen}

abbrev pub shown : Option Fields
shown = some (
    field (text "lldp")
      (obj (
        field (text "interface")
          (obj (
            field (text "eth0")
              (obj (
                field (text "chassis")
                  (obj (
                    field (text "id") (obj (field (text "value") (str (text "mac1")) no_fields))
                      no_fields))
                  no_fields))
              no_fields))
          no_fields))
      no_fields)

abbrev pub chassis : LldpNbr
chassis = record {
  ifname = text "eth0";
  chassis_id = text "mac1";
  port_id = [];
  sys_name = [];
  sys_descr = [];
  mgmt_ip = [];
}

Reach-stale_example :
    (s : System) × Reach s
    × (s.ticker ≡ Phase.idle)
    × (s.watcher ≡ Phase.idle)
    × (s.shared.out ≡ some no_fields)
    × (s.shared.seen ≡ [])
    × (s.shared.calls
        ≡ nbr_update (text "eth0") chassis
          ∷ cache_update
              (text "openconfig")
              []
              (elems_path (lldp_elems (text "eth0") (text "mac1") []) ∷ [])
          ∷ nbr_update (text "eth0") chassis
          ∷ [])
    × ((reconcile (record { seen = s.shared.seen }) (some (some no_fields))).1 ≡ [])
unfolding parse_lldp bytes_beq text insert has
Reach-stale_example = Reach-stale shown (some no_fields) (text "eth0") chassis refl refl refl

-- eth1 had a neighbor before
abbrev before : Lldp
before = record { seen = (text "eth1", text "mac0") ∷ [] }

reconcile-seen_example :
    ((ifn : Bytes)
      → lookup ifn (reconcile before (some shown)).0.seen
        ≡ chassis_of (lookup ifn (parse_lldp shown)))
    × All
        (Handled (reconcile before (some shown)).1 (reconcile before (some shown)).0.seen)
        before.seen
reconcile-seen_example = reconcile-seen before shown
