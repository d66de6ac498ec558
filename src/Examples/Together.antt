-- ===== src/Examples/Together.antt =====
-- Inputs of several ingesters.
use for_visibility.Prelude.{
  ℕ, ◌≡◌, refl, false, none, some, List, [], ◌∷◌, length, Run, returns, panics,
}
use for_visibility.Text.{Bytes, text}
use for_visibility.Attr.{for_each_attr}
use for_visibility.Fpm.Route.{scan_route, format_prefix, route_effects, apply_route}
use for_visibility.Vrf.{name}
use for_visibility.Prelude.Assoc.{lookup}
use for_visibility.Ospf.{parse_ospf_nbrs, report, reconcile}
use for_visibility.Netlink.{oper_down, link_event, LinkAttrs}
use for_visibility.Shim.Served.{RunHolds}
use for_visibility.Shim.Inputs.{
  Ingesters, Input, zebra, vtysh, link_message, handle_inputs, Logged, handle_inputs-Logged,
}
use for_visibility.Examples.Triggers.{neighbor}

abbrev new_ingesters : Ingesters
new_ingesters = record {
  fpm_state = record { nh = []; vrf = [] };
  bmp_state = record { rd_vrf = []; vrf = [] };
  ospf_state = record { seen = []; st = [] };
  lldp_state = record { seen = [] };
}

abbrev eth0_down : LinkAttrs
eth0_down = record {
  name = text "eth0";
  index = 2;
  mtu = 1500;
  up = false;
  oper_state = oper_down;
  link_type = text "veth";
  statistics = none;
}

-- 10.1.0.0/16 through 10.0.0.1, in the main table
abbrev route_frame : Bytes
route_frame =
    1 ∷ 1 ∷ 0 ∷ 48 ∷ 44 ∷ 0 ∷ 0 ∷ 0 ∷ 24 ∷ 0 ∷ 0 ∷ 0 ∷ 0 ∷ 0 ∷ 0 ∷ 0 ∷ 0 ∷ 0 ∷ 0 ∷ 0 ∷ 2 ∷ 16 ∷ 0
    ∷ 0 ∷ 254 ∷ 0 ∷ 0 ∷ 1 ∷ 0 ∷ 0 ∷ 0 ∷ 0 ∷ 8 ∷ 0 ∷ 1 ∷ 0 ∷ 10 ∷ 1 ∷ 0 ∷ 0 ∷ 8 ∷ 0 ∷ 5 ∷ 0 ∷ 10 ∷ 0
    ∷ 0 ∷ 1 ∷ []

-- a link goes down, vtysh shows a neighbor, and a route comes
abbrev three_inputs : List Input
three_inputs =
    link_message false eth0_down ∷ vtysh (some (some neighbor)) ∷ zebra (λ k. none) route_frame ∷ []

-- how many effects there are, if nothing panics
abbrev count_effects {ℓ κ} : {A : Type ℓ} {B : Type κ} → Run (A × List B) → ℕ
count_effects (returns (a, effects)) = length effects
count_effects panics = 0

three_inputs_effects : count_effects (handle_inputs new_ingesters three_inputs) ≡ 6
unfolding handle_inputs for_each_attr scan_route format_prefix route_effects apply_route name lookup
    parse_ospf_nbrs link_event report reconcile text
three_inputs_effects = refl

handle_inputs-Logged_example : RunHolds Logged (handle_inputs new_ingesters three_inputs)
handle_inputs-Logged_example = handle_inputs-Logged new_ingesters three_inputs
