-- ===== src/Examples/Triggers.antt =====
-- A neighbor comes up after the start: the triggers of the OSPF ingester.
use for_visibility.Prelude.{◌+◌, ◌≡◌, ◌≤◌, refl, true, false, [], ◌∷◌}
use for_visibility.Prelude.Assoc.{lookup}
use for_visibility.Text.{Bytes, text}
use for_visibility.Text.Split.{has_prefix}
use for_visibility.Ospf.{Neighbors, lc, parse_neighbors}
use for_visibility.Ospf.Trigger.{
  contains, signal, is_ospf, read_message, draining, waiting, System, deliver, misses, started,
  change, bind, drain, receive, ask, store, Reach, start, later,
}
use for_visibility.Ospf.Invariant.{Remembers}
use for_visibility.Ospf.Caught.{Reach-Remembers, unbound-Remembers}
use for_visibility.Ospf.Bounded.{asks, signals, waiting_trigger, taken_trigger, Reach-asks}

abbrev pub neighbor : Neighbors
neighbor =
    (
      text "2.2.2.2",
      record {
        nbr_state = text "Full/DR";
        converged = [];
        iface_name = text "eth0:10.0.0.1";
        iface_address = text "10.0.0.2";
      }
          ∷ [],
    )
    ∷ []

abbrev message : Bytes
message = text "OSPF: AdjChg"

-- the state once the change is logged, and the one after the goroutines have dealt with it
unfoldable logged : (s : System) × Reach 0 s
unfolding parse_neighbors started is_ospf lc contains text has_prefix deliver lookup
logged = (_, later (later (start [] true tt) (bind refl)) (change neighbor message (refl, tt) refl))

unfoldable dealt_with : (s : System) × Reach 0 s
unfolding logged started is_ospf lc contains text has_prefix deliver read_message signal
dealt_with = (
  _,
  later (later (later (later logged.1 (drain message [] refl refl)) (receive refl refl)) (ask refl))
      (store _ refl),
)

Reach-Remembers_example : Remembers dealt_with.0.ospf neighbor
unfolding dealt_with logged started misses
Reach-Remembers_example = Reach-Remembers dealt_with.1 refl refl refl refl

unbound-Remembers_example :
    (s : System) × Reach 0 s
    × (s.syslog ≡ draining)
    × (s.socket ≡ [])
    × (s.pending ≡ false)
    × (s.worker ≡ waiting)
    × (s.router ≡ neighbor)
    × Remembers s.ospf []
unfolding parse_neighbors lookup
unbound-Remembers_example = unbound-Remembers 0 [] neighbor tt (refl, tt)

Reach-asks_example :
    asks dealt_with.1 + (waiting_trigger dealt_with.0 + taken_trigger dealt_with.0.worker)
    ≤ signals dealt_with.1
Reach-asks_example = Reach-asks dealt_with.1
