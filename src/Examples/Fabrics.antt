-- ===== src/Examples/Fabrics.antt =====
-- The topology and the distributed traces of a small network.
use for_visibility.Prelude.{
  ℕ, ◌≤◌, ◌≡◌, refl, Bool, true, false, some, [], ◌∷◌, ◌++◌, if◌then◌else◌, All,
}
use mathlib.Core.List.{Perm}
use for_visibility.Prelude.Int.{pos}
use for_visibility.Prelude.Assoc.{Map}
use for_visibility.Prelude.Sort.{IsSorted}
use for_visibility.Text.{Bytes, text, bytes_beq, bytes_eq}
use for_visibility.Gnmi.{leaf_update, elems_path}
use for_visibility.Gnmi.Paths.{plain}
use for_visibility.Exporter.{Shims}
use for_visibility.Topology.{Fabric, all_edges}
use for_visibility.Topology.Sound.{IsEdges}
use for_visibility.Topology.Collected.{all_edges-IsEdges}
use for_visibility.Correlate.{Trace}
use for_visibility.Aggregator.{Pulls, Dtrace, pull_all, clusters, merge}
use for_visibility.Aggregator.Groups.{AreClusters, concat, clusters-AreClusters}
use for_visibility.Aggregator.Offsets.{IsOffset, merge-offsets}
use for_visibility.Aggregator.Zipkin.{Formats, trace_id_of}
use for_visibility.Aggregator.Rounds.{Config, Round, new_aggregator, run_rounds}
use for_visibility.Aggregator.Rounds.Exported.{exports, run_rounds-exported}

abbrev pe1 : Bytes
pe1 = text "pe1"

abbrev ce1 : Bytes
ce1 = text "ce1"

abbrev two_nodes : Map Bytes Bytes
two_nodes = (pe1, text "172.31.0.1") ∷ (ce1, text "172.31.0.2") ∷ []

-- both shims name ce1 as the neighbor of an interface
abbrev lldp_shims : Shims
lldp_shims addr p = some (
    record {
      timestamp = 1;
      prefix = elems_path [];
      update = leaf_update (plain (text "system-name") ∷ []) ce1 ∷ [];
      delete = [];
    }
    ∷ [])

abbrev two_fabric : Fabric
two_fabric = record { inventory = two_nodes; shims = lldp_shims }

all_edges-IsEdges_example : IsEdges two_nodes (all_edges two_fabric)
all_edges-IsEdges_example = all_edges-IsEdges two_fabric

-- the interface pe1-ce1 goes down; ce1 sees it two milliseconds later
abbrev down_at : Bytes → Bytes → ℕ → Trace
down_at node iface start = record {
  node = node;
  id = 1;
  root = text "netlink/link-down " ++ iface;
  start = start;
  span_ms = pos 3;
  spans =
      record { offset_ms = pos 3; bus = text "fpm"; kind = text "route-del"; key = []; detail = [] }
      ∷ record {
        offset_ms = pos 0;
        bus = text "netlink";
        kind = text "link-down";
        key = iface;
        detail = [];
      }
      ∷ [];
}

abbrev two_pulls : Pulls
two_pulls addr =
    if bytes_beq addr (text "172.31.0.1:9340")
    then down_at pe1 (text "pe1-ce1") 5000000 ∷ []
    else down_at ce1 (text "ce1-pe1") 7000000 ∷ []

clusters-AreClusters_example :
    AreClusters 1500000000 (clusters 1500000000 two_pulls two_nodes)
    × Perm (concat (clusters 1500000000 two_pulls two_nodes)) (pull_all two_pulls two_nodes)
    × IsSorted (λ t. t.start) (concat (clusters 1500000000 two_pulls two_nodes))
clusters-AreClusters_example = clusters-AreClusters 1500000000 two_pulls two_nodes

abbrev both_down : Dtrace
both_down =
    merge 1 (down_at pe1 (text "pe1-ce1") 5000000 ∷ down_at ce1 (text "ce1-pe1") 7000000 ∷ [])

merge-offsets_example :
    IsSorted (λ s. s.abs) both_down.spans
    × All (IsOffset both_down.start) both_down.spans
    × All (λ s. s.offset_ms ≤ both_down.span_ms) both_down.spans
merge-offsets_example =
    merge-offsets 1
      (down_at pe1 (text "pe1-ce1") 5000000 ∷ down_at ce1 (text "ce1-pe1") 7000000 ∷ [])

-- the hash keeps its seed
abbrev plain_formats : Formats
plain_formats = record { hex_id = λ seed n. seed; rfc3339 = λ t. [] }

abbrev to_tempo : Config
to_tempo = record { window = 1500000000; zipkin_url = text "http://tempo" }

abbrev round_with : Bool → Round
round_with posted = record { pulls = two_pulls; inventory = two_nodes; posted = λ k. posted }

-- the posts of the first round fail
run_rounds-exported_example :
    All
      (λ dt.
        exports
          (trace_id_of plain_formats dt)
          (run_rounds plain_formats to_tempo new_aggregator
            (round_with false ∷ round_with true ∷ [])).1
        ≡ 1)
      (run_rounds plain_formats to_tempo new_aggregator
        (round_with false ∷ round_with true ∷ [])).0.out
unfolding text
run_rounds-exported_example =
    run_rounds-exported plain_formats to_tempo (round_with false ∷ []) (round_with true) refl
      (λ k. refl)
