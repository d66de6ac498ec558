-- ===== src/Aggregator.antt =====
-- cmd/trace-aggregator/main.go: the traces of all nodes clustered by their start (`build`), and a
-- cluster merged into one distributed trace (`merge`, `linkKey`). An instant is its number of
-- nanoseconds since the epoch.
pub mod Link
pub mod Groups
pub mod Offsets
pub mod Direction
pub mod Zipkin
pub mod Rounds
pub mod Inventory
use for_visibility.Prelude.{
  ℕ, zero, suc, ◌+◌, ◌-◌, ◌*◌, ◌/◌, Bool, true, false, not, Option, none, some, List, [], ◌∷◌, ◌++◌,
  map, ltb, leb, if◌then◌else◌,
}
use for_visibility.Prelude.Int.{ℤ, pos, negsuc}
use for_visibility.Prelude.Assoc.{Map, lookup, insert, nat_eq}
use for_visibility.Prelude.Sort.{sort_by, sort_on}
use for_visibility.Text.{Bytes, text, bytes_ltb, bytes_eq}
use for_visibility.Text.Split.{has_byte}
use for_visibility.Correlate.{Trace, Span}
use for_visibility.Exporter.{is_empty}
use Link.{link_key}

pub record Dspan : Type 0 where
  pub node : Bytes
  pub offset_ms : ℕ
  pub bus : Bytes
  pub kind : Bytes
  pub key : Bytes
  pub detail : Bytes
  pub abs : ℕ

pub record Dtrace : Type 0 where
  pub id : ℕ
  pub start : ℕ
  pub span_ms : ℕ
  pub link : Bytes
  pub nodes : List Bytes
  pub roots : List Bytes
  pub spans : List Dspan

-- The traces that a node's shim serves at an address; none when the pull fails.
abbrev pub Pulls : Type 0
Pulls = Bytes → List Trace

-- `if t.Node == "" { t.Node = node }`
abbrev pub own : Bytes → Trace → Trace
own node t = if is_empty t.node then record t { node = node } else t

-- the address with the default port
abbrev pub traces_addr : Bytes → Bytes
traces_addr ip = if has_byte 58 ip then ip else ip ++ text ":9340"

unfoldable pub pull_all : Pulls → Map Bytes Bytes → List Trace
pull_all pulls [] = []
pull_all pulls ((node, ip) ∷ inventory) =
    map (own node) (pulls (traces_addr ip)) ++ pull_all pulls inventory

abbrev pub first_start : List Trace → ℕ
first_start [] = 0
first_start (t ∷ ts) = t.start

-- One round of the loop that fills `groups`: the last group takes the trace, or a new one does.
unfoldable pub place : ℕ → Trace → List (List Trace) → List (List Trace)
place window t [] = (t ∷ []) ∷ []
place window t (g ∷ []) =
    if leb t.start (first_start g + window) then (g ++ t ∷ []) ∷ [] else g ∷ (t ∷ []) ∷ []
place window t (g ∷ h ∷ gs) = g ∷ place window t (h ∷ gs)

unfoldable pub place_all : ℕ → List Trace → List (List Trace) → List (List Trace)
unfolding place
place_all window [] groups = groups
place_all window (t ∷ ts) groups = place_all window ts (place window t groups)

unfoldable pub group_traces : ℕ → List Trace → List (List Trace)
unfolding place_all
group_traces window ts = place_all window ts []

-- t.Start.Add(time.Duration(offset) * time.Millisecond); an instant before the epoch is cut to it
abbrev pub add_ms : ℕ → ℤ → ℕ
add_ms start (pos n) = start + n * 1000000
add_ms start (negsuc n) = start - suc n * 1000000

abbrev pub dspan_of : Trace → Span → Dspan
dspan_of t s = record {
  node = t.node;
  offset_ms = 0;
  bus = s.bus;
  kind = s.kind;
  key = s.key;
  detail = s.detail;
  abs = add_ms t.start s.offset_ms;
}

unfoldable pub all_spans : List Trace → List Dspan
all_spans [] = []
all_spans (t ∷ ts) = map (dspan_of t) t.spans ++ all_spans ts

-- linkVotes[lk]++
abbrev pub count_up : Option ℕ → ℕ
count_up (some n) = suc n
count_up none = 1

unfoldable pub link_votes : List Trace → Map Bytes ℕ → Map Bytes ℕ
unfolding link_key
link_votes [] votes = votes
link_votes (t ∷ ts) votes =
    let lk = link_key t.root in
    link_votes ts (if is_empty lk then votes else insert lk (count_up (lookup lk votes)) votes)

-- the link with the most votes
unfoldable pub most_votes : Map Bytes ℕ → ℕ → Bytes → Bytes
most_votes [] best link = link
most_votes ((k, v) ∷ votes) best link =
    if ltb best v then most_votes votes v k else most_votes votes best link

-- the set of the nodes; a set is a map to itself
unfoldable pub node_set : List Trace → Map Bytes Bytes → Map Bytes Bytes
node_set [] set = set
node_set (t ∷ ts) set = node_set ts (insert t.node t.node set)

-- of no spans Go's zero time, for which 0 stands here
abbrev pub first_abs : List Dspan → ℕ
first_abs [] = 0
first_abs (s ∷ spans) = s.abs

-- s.abs.Sub(start).Milliseconds(), of a start that is not later
abbrev pub with_offset : ℕ → Dspan → Dspan
with_offset start s = record s { offset_ms = (s.abs - start) / 1000000 }

unfoldable pub widest : ℕ → List Dspan → ℕ
widest span [] = span
widest span (s ∷ spans) = widest (if ltb span s.offset_ms then s.offset_ms else span) spans

unfoldable pub merge : ℕ → List Trace → Dtrace
unfolding sort_by all_spans widest node_set link_votes most_votes
merge id g =
    let sorted = sort_on (λ s. s.abs) (all_spans g) in
    let start = first_abs sorted in
    let spans = map (with_offset start) sorted in
    record {
      id = id;
      start = start;
      span_ms = widest 0 spans;
      link = most_votes (link_votes g []) 0 [];
      nodes =
          sort_by (λ a b. not (bytes_ltb b a)) (map (λ (n : Bytes × Bytes). n.0) (node_set g []));
      roots = map (λ (t : Trace). t.node ++ text ": " ++ t.root) g;
      spans = spans;
    }

unfoldable pub merge_all : ℕ → List (List Trace) → List Dtrace
unfolding merge
merge_all id [] = []
merge_all id (g ∷ groups) = merge id g ∷ merge_all (suc id) groups

-- the groups of `build`
unfoldable pub clusters : ℕ → Pulls → Map Bytes Bytes → List (List Trace)
unfolding group_traces pull_all sort_by
clusters window pulls inventory =
    group_traces window (sort_on (λ t. t.start) (pull_all pulls inventory))

-- build
unfoldable pub build : ℕ → Pulls → Map Bytes Bytes → List Dtrace
unfolding merge_all clusters
build window pulls inventory = merge_all 1 (clusters window pulls inventory)
