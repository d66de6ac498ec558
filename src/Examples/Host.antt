-- ===== src/Examples/Host.antt =====
-- A link that is removed, and the FDB at the start.
use for_visibility.Prelude.{refl, true, none, some, List, [], ◌∷◌, All}
use for_visibility.Text.{text}
use for_visibility.Cache.{run_effects}
use for_visibility.Examples.Memory.{memory, no_leaves, ticking}
use for_visibility.Netlink.{LinkAttrs, Neigh, KernelView, oper_up, link_event}
use for_visibility.Netlink.Subtree.{Gone, link_writes, link_event-removes}

abbrev eth0 : LinkAttrs
eth0 = record {
  name = text "eth0";
  index = 2;
  mtu = 1500;
  up = true;
  oper_state = oper_up;
  link_type = text "veth";
  statistics = none;
}

abbrev neighs : List Neigh
neighs =
    record { bridge = true; hardware_addr = 2 ∷ 0 ∷ 0 ∷ 0 ∷ 0 ∷ 1 ∷ []; vlan = 10; link_index = 2 }
    ∷ record {
      bridge = true;
      hardware_addr = 51 ∷ 51 ∷ 0 ∷ 0 ∷ 0 ∷ 1 ∷ [];
      vlan = 10;
      link_index = 2;
    }
    ∷ []

abbrev host : KernelView
host = record {
  link_list = some (eth0 ∷ []);
  neigh_list = some neighs;
  mpls_list = none;
  addr_list = λ l. some (record { ip_net = true; ip = 10 ∷ 0 ∷ 0 ∷ 1 ∷ []; prefix_len = 24 } ∷ []);
  link_by_index = λ i. some eth0;
}

link_event-removes_example :
    All
      (Gone memory
        (text "pe1")
        (run_effects memory (text "pe1") ticking 0 (link_event true eth0) no_leaves).0)
      (link_writes host eth0)
unfolding run_effects link_event
link_event-removes_example =
    link_event-removes memory (text "pe1") ticking 0 eth0 no_leaves host refl
