-- ===== src/Examples/Metrics.antt =====
-- The pages of metrics: one walk without a route, and one link.
use for_visibility.Prelude.{ℕ, Bool, true, ◌≡◌, refl, sym, subst, none, some, [], ◌∷◌}
use for_visibility.Text.{Bytes, text}
use for_visibility.Exporter.Metrics.{samples}
use for_visibility.Exporter.Metrics.Values.{all_plain, IsReadable, plain-IsReadable}
use for_visibility.Exporter.Metrics.Page.{scrape}
use for_visibility.Text.Split.{has_byte, split_on}
use for_visibility.Text.Cidr.{parse_ip4, parse_octet, parse_digits}
use for_visibility.Text.{bytes_beq, bytes_eq}
use for_visibility.Prelude.Assoc.{lookup, insert}
use for_visibility.Pathtrace.{trace, round, ip_round}
use for_visibility.Pathtrace.Lookup.{build_ip2node, route_lookup}
use for_visibility.Gnmi.{leaf_update, elems_path}
use for_visibility.Gnmi.Paths.{plain}
use for_visibility.Topology.{Fabric, all_edges}
use for_visibility.Topology.Merge.{Edge, edge_key, ordered}
use for_visibility.Topology.Layers.{physical_edges, ospf_edges, bgp_edges, mpls_edges, vlan_edges}
use for_visibility.Topology.Render.{node_sample, page_lines}
use for_visibility.Topology.Listed.{page_lines-ends}
use mathlib.Core.List.{Memᴰ}
use for_visibility.Pathtrace.Render.{Refresh, walk_flow, render}
use for_visibility.Pathtrace.Printed.{refresh_samples, scrape-render}

-- every rune is printable
abbrev all_print : ℕ → Bool
all_print c = true

readable : {s : Bytes} → all_plain s ≡ true → IsReadable all_print s
readable {s} h = plain-IsReadable all_print s h

abbrev one_flow : Refresh
one_flow = record {
  inventory = (text "r1", text "172.31.0.1") ∷ [];
  flows = record { name = text "lost"; start = text "r1"; dst = text "10.0.0.3" } ∷ [];
  at_start = λ addr p. none;
  during = λ k i addr p. none;
  duration = λ k. text "0.25";
}

scrape-render_example :
    scrape (render all_print one_flow) ≡ refresh_samples one_flow 0 one_flow.flows
unfolding text has_byte build_ip2node lookup bytes_beq walk_flow trace round ip_round route_lookup
    parse_ip4 split_on parse_octet parse_digits
scrape-render_example =
    scrape-render all_print one_flow (λ i. refl)
      (
        (readable refl, readable refl, readable refl),
        ((readable refl, readable refl, readable refl, readable refl, readable refl), tt),
        tt,
      )

-- ce1 is the LLDP neighbor of pe1
abbrev link_edge : Edge
link_edge = record {
  layer = text "physical";
  src = text "ce1";
  dst = text "pe1";
  detail = text "lldp";
}

abbrev link_fabric : Fabric
link_fabric = record {
  inventory = (text "pe1", text "172.31.0.1") ∷ (text "ce1", text "172.31.0.2") ∷ [];
  shims = λ addr p. some (
      record {
        timestamp = 1;
        prefix = elems_path [];
        update = leaf_update (plain (text "system-name") ∷ []) (text "ce1") ∷ [];
        delete = [];
      }
      ∷ []);
}

link_edges : all_edges link_fabric ≡ (text "physical|ce1|pe1", link_edge) ∷ []
unfolding all_edges text vlan_edges lookup bytes_beq has_byte mpls_edges bgp_edges ospf_edges
    physical_edges insert edge_key ordered
link_edges = refl

page_lines-ends_example :
    Memᴰ (node_sample (text "physical") (text "ce1")) (samples (page_lines (all_edges link_fabric)))
    × Memᴰ
        (node_sample (text "physical") (text "pe1"))
        (samples (page_lines (all_edges link_fabric)))
page_lines-ends_example =
    page_lines-ends link_fabric (text "physical|ce1|pe1") link_edge
      (subst (Memᴰ _) (sym link_edges) (Memᴰ.head refl))
