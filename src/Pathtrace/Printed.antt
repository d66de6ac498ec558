-- ===== src/Pathtrace/Printed.antt =====
-- What Prometheus reads from the page of the path-trace exporter.
mod Lines
use for_visibility.Prelude.{
  ℕ, suc, ◌≡◌, refl, Bool, true, false, List, [], ◌∷◌, ◌++◌, map, length, ap, ◌∙◌, append_assoc,
  if◌then◌else◌, ltb,
}
use for_visibility.Prelude.Assoc.{Map}
use for_visibility.Text.{Bytes, text}
use for_visibility.Text.Decimal.{itoa}
use for_visibility.Text.Quote.Escaped.{IsLine}
use for_visibility.Exporter.Metrics.{Labels, Sample, Line, samples, two_digits}
use for_visibility.Exporter.Metrics.Page.{samples-append, scrape, scrape-page}
use for_visibility.Pathtrace.{Hop, Flow, trace}
use for_visibility.Pathtrace.Lookup.{build_ip2node}
use for_visibility.Pathtrace.Render.{
  Refresh, hop_line, flow_lines, walk_flow, all_flow_lines, head_lines, last_lines, page_lines,
  render,
}
use for_visibility.Pathtrace.Printed.Lines.{
  AllReadable, page_lines-IsWellFormed, page_lines-HasLabels,
}

-- the labels of the samples of a flow
abbrev pub of_flow : Flow → Labels
of_flow f = (text "flow", f.name) ∷ (text "src", f.start) ∷ (text "dst", f.dst) ∷ []

-- a number with at least two digits
abbrev pub padded : ℕ → Bytes
padded n = if ltb n 10 then text "0" ++ itoa n else itoa n

abbrev pub hop_sample : Flow → Hop → Sample
hop_sample f h = (
  text "frr_pathtrace_hop_info",
  (text "flow", f.name)
      ∷ (text "seq", padded h.seq)
      ∷ (text "node", h.node)
      ∷ (text "kind", h.kind)
      ∷ (text "nexthop", h.nexthop)
      ∷ (text "labels", h.label)
      ∷ (text "detail", h.detail)
      ∷ [],
  text "1",
)

-- 1 for a walk that reached the destination, 0 for one that did not
abbrev pub verdict_text : Bool → Bytes
verdict_text true = text "1"
verdict_text false = text "0"

-- What the page has to say of a flow whose walk took `dur` and gave these hops and this verdict.
abbrev pub flow_samples : Flow → Bytes → List Hop × Bool → List Sample
flow_samples f dur (hops, reached) =
    (text "frr_pathtrace_reachable", of_flow f, verdict_text reached)
    ∷ (text "frr_pathtrace_hops", of_flow f, itoa (length hops))
    ∷ (text "frr_pathtrace_duration_seconds", of_flow f, dur)
    ∷ map (hop_sample f) hops

-- What it has to say of the flows from the k-th on: each with the walk from its start to its
-- destination, and that the refresh completed.
abbrev pub refresh_samples : Refresh → ℕ → List Flow → List Sample
refresh_samples r k [] = (text "frr_pathtrace_up", [], text "1") ∷ []
refresh_samples r k (f ∷ flows) =
    flow_samples f (r.duration k) (
      trace
        record {
          shims = r.during k;
          inventory = r.inventory;
          ip2node = build_ip2node r.at_start r.inventory;
          dst = f.dst;
        }
        f.start)
    ++ refresh_samples r (suc k) flows

samples-hop_lines :
    (f : Flow) (hops : List Hop) → samples (map (hop_line f) hops) ≡ map (hop_sample f) hops
unfolding two_digits text
samples-hop_lines f [] = refl
samples-hop_lines f (h ∷ hops) = ap (λ rest. hop_sample f h ∷ rest) (samples-hop_lines f hops)

samples-flow_lines :
    (f : Flow) (dur : Bytes) (walk : List Hop × Bool)
    → samples (flow_lines f dur walk) ≡ flow_samples f dur walk
unfolding flow_lines
samples-flow_lines f dur (hops, true) = rw (samples-hop_lines f hops) refl
samples-flow_lines f dur (hops, false) = rw (samples-hop_lines f hops) refl

samples-all_flow_lines :
    (r : Refresh) (k : ℕ) (flows : List Flow)
    → samples (all_flow_lines r (build_ip2node r.at_start r.inventory) k flows ++ last_lines)
      ≡ refresh_samples r k flows
unfolding all_flow_lines walk_flow last_lines
samples-all_flow_lines r k [] = refl
samples-all_flow_lines r k (f ∷ flows) =
    let ip2node : Map Bytes Bytes = build_ip2node r.at_start r.inventory in
    let lines : List Line = flow_lines f (r.duration k) (walk_flow r ip2node k f) in
    let rest : List Line = all_flow_lines r ip2node (suc k) flows in
    ap samples (append_assoc lines rest last_lines)
    ∙ samples-append lines (rest ++ last_lines)
    ∙ ap (λ found. found ++ samples (rest ++ last_lines))
        (samples-flow_lines f (r.duration k) (walk_flow r ip2node k f))
    ∙ ap (λ found. flow_samples f (r.duration k) (walk_flow r ip2node k f) ++ found)
        (samples-all_flow_lines r (suc k) flows)

samples-page_lines : (r : Refresh) → samples (page_lines r) ≡ refresh_samples r 0 r.flows
unfolding head_lines
samples-page_lines r = samples-all_flow_lines r 0 r.flows

-- What Prometheus reads from the page of the path-trace exporter is, in order: of every flow
-- frr_pathtrace_reachable, which is 1 if the walk from its start reached its destination and else 0,
-- the number of hops and the duration, then each hop with its number, node, kind, next hop, labels
-- and detail; and at the end that frr_pathtrace_up is 1. The names of the flows and the texts of the
-- hops are valid text of printable runes and newlines, and %g prints no newline.
pub scrape-render :
    (is_print : ℕ → Bool) (r : Refresh)
    → ((i : ℕ) → IsLine (r.duration i))
    → AllReadable is_print r (build_ip2node r.at_start r.inventory) 0 r.flows
    → scrape (render is_print r) ≡ refresh_samples r 0 r.flows
unfolding render
scrape-render is_print r durations readable =
    scrape-page is_print (page_lines r) (page_lines-IsWellFormed r durations)
      (page_lines-HasLabels is_print r readable)
    ∙ samples-page_lines r
