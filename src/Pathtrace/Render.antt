-- ===== src/Pathtrace/Render.antt =====
-- cmd/pathtrace-exporter/main.go: the page of metrics (`render`).
use for_visibility.Prelude.{ℕ, suc, Bool, List, [], ◌∷◌, ◌++◌, map, if◌then◌else◌, length}
use for_visibility.Prelude.Assoc.{Map}
use for_visibility.Text.{Bytes, text}
use for_visibility.Text.Decimal.{itoa}
use for_visibility.Exporter.{Shims}
use for_visibility.Exporter.Metrics.{Labels, Line, comment, metric, bare, page, two_digits}
use for_visibility.Pathtrace.{Hop, Flow, trace}
use for_visibility.Pathtrace.Lookup.{build_ip2node}

-- One refresh: the configuration, what the shims answer when the addresses are collected and in each
-- round of the walk of each flow, and the text that %g makes of the time that each walk took.
pub record Refresh : Type 0 where
  pub inventory : Map Bytes Bytes
  pub flows : List Flow
  pub at_start : Shims
  pub during : ℕ → ℕ → Shims
  pub duration : ℕ → Bytes

-- lbl
abbrev pub flow_labels : Flow → Labels
flow_labels f = (text "flow", f.name) ∷ (text "src", f.start) ∷ (text "dst", f.dst) ∷ []

abbrev pub hop_line : Flow → Hop → Line
hop_line f h = metric (
  text "frr_pathtrace_hop_info",
  (text "flow", f.name)
      ∷ (text "seq", two_digits h.seq)
      ∷ (text "node", h.node)
      ∷ (text "kind", h.kind)
      ∷ (text "nexthop", h.nexthop)
      ∷ (text "labels", h.label)
      ∷ (text "detail", h.detail)
      ∷ [],
  text "1",
)

-- the lines of one flow, from the result of its walk
unfoldable pub flow_lines : Flow → Bytes → List Hop × Bool → List Line
unfolding two_digits itoa text
flow_lines f dur (hops, reached) =
    metric (text "frr_pathtrace_reachable", flow_labels f, if reached then text "1" else text "0")
    ∷ metric (text "frr_pathtrace_hops", flow_labels f, itoa (length hops))
    ∷ metric (text "frr_pathtrace_duration_seconds", flow_labels f, dur)
    ∷ map (hop_line f) hops

-- the walk of the k-th flow
unfoldable pub walk_flow : Refresh → Map Bytes Bytes → ℕ → Flow → List Hop × Bool
unfolding trace
walk_flow r ip2node k f =
    trace (record { shims = r.during k; inventory = r.inventory; ip2node = ip2node; dst = f.dst })
      f.start

unfoldable pub all_flow_lines : Refresh → Map Bytes Bytes → ℕ → List Flow → List Line
unfolding flow_lines walk_flow
all_flow_lines r ip2node k [] = []
all_flow_lines r ip2node k (f ∷ flows) =
    flow_lines f (r.duration k) (walk_flow r ip2node k f) ++ all_flow_lines r ip2node (suc k) flows

-- the HELP and TYPE lines
unfoldable pub head_lines : List Line
unfolding text
head_lines =
    comment (
      text
        "# HELP frr_pathtrace_reachable 1 if the destination was reached by the control-plane path walk")
    ∷ comment (text "# TYPE frr_pathtrace_reachable gauge")
    ∷ comment (text "# HELP frr_pathtrace_hops number of hops walked")
    ∷ comment (text "# TYPE frr_pathtrace_hops gauge")
    ∷ comment (text "# HELP frr_pathtrace_duration_seconds wall time of the trace")
    ∷ comment (text "# TYPE frr_pathtrace_duration_seconds gauge")
    ∷ comment (text "# HELP frr_pathtrace_hop_info one series per hop (value always 1)")
    ∷ comment (text "# TYPE frr_pathtrace_hop_info gauge")
    ∷ []

unfoldable pub last_lines : List Line
unfolding text
last_lines =
    comment (text "# HELP frr_pathtrace_up 1 if the last refresh completed")
    ∷ comment (text "# TYPE frr_pathtrace_up gauge")
    ∷ bare (text "frr_pathtrace_up") (text "1")
    ∷ []

abbrev pub page_lines : Refresh → List Line
page_lines r =
    head_lines ++ (all_flow_lines r (build_ip2node r.at_start r.inventory) 0 r.flows ++ last_lines)

unfoldable pub render : (ℕ → Bool) → Refresh → Bytes
unfolding page head_lines all_flow_lines build_ip2node last_lines
render is_print r = page is_print (page_lines r)
