-- ===== src/Pathtrace/Printed/Lines.antt =====
-- The lines of the page of the path-trace exporter are well formed, and their labels can be read back.
use for_visibility.Prelude.{
  ℕ, suc, refl, Bool, true, false, List, [], ◌∷◌, map, length, All, All-append, if◌then◌else◌,
}
use for_visibility.Prelude.Assoc.{Map}
use for_visibility.Text.{Bytes, text}
use for_visibility.Text.Split.{has_byte}
use for_visibility.Text.Quote.Escaped.{IsLine}
use for_visibility.Exporter.Metrics.{samples, two_digits}
use for_visibility.Exporter.Metrics.Reader.{read_sample, read_metric, cut}
use for_visibility.Exporter.Metrics.Values.{IsReadable}
use for_visibility.Exporter.Metrics.Scrape.{IsLabel}
use for_visibility.Exporter.Metrics.Lines.{
  HasKeys, itoa-IsLine, two_digits-IsDigit, digits-IsReadable,
}
use for_visibility.Exporter.Metrics.Page.{IsWellFormed, HasLabels, HasLabels-append}
use for_visibility.Pathtrace.{Hop, Flow}
use for_visibility.Pathtrace.Lookup.{build_ip2node}
use for_visibility.Pathtrace.Render.{
  Refresh, flow_labels, hop_line, flow_lines, walk_flow, all_flow_lines, head_lines, last_lines,
  page_lines,
}

module _ (is_print : ℕ → Bool) where
  abbrev Readable : Bytes → Type 0
  Readable s = IsReadable is_print s

  abbrev pub FlowReadable : Flow → Type 0
  FlowReadable f = Readable f.name × Readable f.start × Readable f.dst

  abbrev pub HopReadable : Hop → Type 0
  HopReadable h =
      Readable h.node × Readable h.kind × Readable h.nexthop × Readable h.label × Readable h.detail

  -- the texts of the flows and of the hops of their walks
  abbrev pub AllReadable : Refresh → Map Bytes Bytes → ℕ → List Flow → Type 0
  AllReadable r ip2node k [] = Unit
  AllReadable r ip2node k (f ∷ flows) =
      FlowReadable f
      × All HopReadable (walk_flow r ip2node k f).0
      × AllReadable r ip2node (suc k) flows

  hop_lines-HasLabels :
      (f : Flow) (hops : List Hop)
      → Readable f.name
      → All HopReadable hops
      → All (HasLabels is_print) (samples (map (hop_line f) hops))
  unfolding has_byte text
  hop_lines-HasLabels f [] name h = tt
  hop_lines-HasLabels f (h ∷ hops) name ((node, kind, nexthop, label, detail), rest) = (
    (
      (refl, name),
      (
        (refl, digits-IsReadable is_print (two_digits h.seq) (two_digits-IsDigit h.seq)),
        ((refl, node), ((refl, kind), ((refl, nexthop), ((refl, label), ((refl, detail), tt))))),
      ),
    ),
    hop_lines-HasLabels f hops name rest,
  )

  flow_lines-HasLabels :
      (f : Flow) (dur : Bytes) (walk : List Hop × Bool)
      → FlowReadable f
      → All HopReadable walk.0
      → All (HasLabels is_print) (samples (flow_lines f dur walk))
  unfolding flow_lines has_byte text
  flow_lines-HasLabels f dur walk (name, start, dst) h =
      (labels, (labels, (labels, hop_lines-HasLabels f walk.0 name h)))
    where
      labels : All (IsLabel is_print) (flow_labels f)
      labels = ((refl, name), ((refl, start), ((refl, dst), tt)))

  all_flow_lines-HasLabels :
      (r : Refresh) (ip2node : Map Bytes Bytes) (k : ℕ) (flows : List Flow)
      → AllReadable r ip2node k flows
      → All (HasLabels is_print) (samples (all_flow_lines r ip2node k flows))
  unfolding all_flow_lines
  all_flow_lines-HasLabels r ip2node k [] h = tt
  all_flow_lines-HasLabels r ip2node k (f ∷ flows) (readable, hops, rest) =
      HasLabels-append is_print (flow_lines f (r.duration k) (walk_flow r ip2node k f)) _
        (flow_lines-HasLabels f (r.duration k) (walk_flow r ip2node k f) readable hops)
        (all_flow_lines-HasLabels r ip2node (suc k) flows rest)

hop_lines-IsWellFormed : (f : Flow) (hops : List Hop) → All IsWellFormed (map (hop_line f) hops)
unfolding has_byte text
hop_lines-IsWellFormed f [] = tt
hop_lines-IsWellFormed f (h ∷ hops) = (
  (refl, refl, refl, (refl, (refl, (refl, (refl, (refl, (refl, (refl, tt))))))), refl),
  hop_lines-IsWellFormed f hops,
)

flow_lines-IsWellFormed :
    (f : Flow) (dur : Bytes) (walk : List Hop × Bool)
    → IsLine dur
    → All IsWellFormed (flow_lines f dur walk)
unfolding flow_lines has_byte text
flow_lines-IsWellFormed f dur (hops, reached) h = (
  (refl, refl, refl, keys, verdict reached),
  (
    (refl, refl, refl, keys, itoa-IsLine (length hops)),
    ((refl, refl, refl, keys, h), hop_lines-IsWellFormed f hops),
  ),
)
  where
    keys : HasKeys (flow_labels f)
    keys = (refl, (refl, (refl, tt)))

    verdict : (b : Bool) → IsLine (if b then 49 ∷ [] else 48 ∷ [])
    verdict true = refl
    verdict false = refl

all_flow_lines-IsWellFormed :
    (r : Refresh) (ip2node : Map Bytes Bytes) (k : ℕ) (flows : List Flow)
    → ((i : ℕ) → IsLine (r.duration i))
    → All IsWellFormed (all_flow_lines r ip2node k flows)
unfolding all_flow_lines
all_flow_lines-IsWellFormed r ip2node k [] h = tt
all_flow_lines-IsWellFormed r ip2node k (f ∷ flows) h =
    All-append IsWellFormed (flow_lines f (r.duration k) (walk_flow r ip2node k f)) _
      (flow_lines-IsWellFormed f (r.duration k) (walk_flow r ip2node k f) (h k))
      (all_flow_lines-IsWellFormed r ip2node (suc k) flows h)

head-IsWellFormed : All IsWellFormed head_lines
unfolding head_lines text has_byte read_sample read_metric cut
head-IsWellFormed = (
  (refl, refl),
  (
    (refl, refl),
    (
      (refl, refl),
      ((refl, refl), ((refl, refl), ((refl, refl), ((refl, refl), ((refl, refl), tt))))),
    ),
  ),
)

last-IsWellFormed : All IsWellFormed last_lines
unfolding last_lines text has_byte read_sample read_metric cut
last-IsWellFormed = ((refl, refl), ((refl, refl), ((refl, refl), tt)))

pub page_lines-IsWellFormed :
    (r : Refresh) → ((i : ℕ) → IsLine (r.duration i)) → All IsWellFormed (page_lines r)
page_lines-IsWellFormed r h = All-append IsWellFormed head_lines _ head-IsWellFormed (
    All-append IsWellFormed (all_flow_lines r ip2node 0 r.flows) last_lines
      (all_flow_lines-IsWellFormed r ip2node 0 r.flows h) last-IsWellFormed)
  where
    ip2node : Map Bytes Bytes
    ip2node = build_ip2node r.at_start r.inventory

pub page_lines-HasLabels :
    (is_print : ℕ → Bool) (r : Refresh)
    → AllReadable is_print r (build_ip2node r.at_start r.inventory) 0 r.flows
    → All (HasLabels is_print) (samples (page_lines r))
unfolding head_lines last_lines
page_lines-HasLabels is_print r readable =
    HasLabels-append is_print (all_flow_lines r (build_ip2node r.at_start r.inventory) 0 r.flows)
      last_lines (all_flow_lines-HasLabels is_print r _ 0 r.flows readable) (tt, tt)
