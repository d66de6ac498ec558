-- ===== src/Aggregator/Offsets.antt =====
-- `merge`: the spans of a distributed trace are in order, and their offsets within its duration.
use for_visibility.Prelude.{
  ℕ, suc, ◌+◌, ◌*◌, ◌≤◌, ◌<◌, List, [], ◌∷◌, map, ltb, if◌then◌else◌, All, arith,
}
use for_visibility.Prelude.Sort.{sort_on, IsSorted, sort_on-IsSorted}
use for_visibility.Correlate.{Trace}
use for_visibility.Aggregator.{Dspan, all_spans, first_abs, with_offset, widest, merge}

-- `span` is at least the one it began with, and at least each offset
widest-All :
    (span : ℕ) (spans : List Dspan)
    → (span ≤ widest span spans) × All (λ s. s.offset_ms ≤ widest span spans) spans
unfolding widest
widest-All span [] = (omega arith, tt)
widest-All span (s ∷ spans) =
    let rest = widest-All (if ltb span s.offset_ms then s.offset_ms else span) spans in
    (ground (arith, rest.0), (ground (arith, rest.0), rest.1))

-- the offset of a span is the time since `start` in whole milliseconds
abbrev pub IsOffset : ℕ → Dspan → Type 0
IsOffset start s =
    (start + s.offset_ms * 1000000 ≤ s.abs) × (s.abs < start + suc s.offset_ms * 1000000)

offsets-All :
    (start : ℕ) (spans : List Dspan)
    → All (λ s. start ≤ s.abs) spans
    → All (IsOffset start) (map (with_offset start) spans)
offsets-All start [] h = tt
offsets-All start (s ∷ spans) h =
    ((omega (arith, h.0), omega (arith, h.0)), offsets-All start spans h.1)

from_first :
    (spans : List Dspan) → IsSorted (λ s. s.abs) spans → All (λ s. first_abs spans ≤ s.abs) spans
from_first [] h = tt
from_first (s ∷ spans) h = (omega arith, h.0)

All-with_offset :
    (start k : ℕ) (spans : List Dspan)
    → All (λ s. k ≤ s.abs) spans
    → All (λ s. k ≤ s.abs) (map (with_offset start) spans)
All-with_offset start k [] h = tt
All-with_offset start k (s ∷ spans) h = (h.0, All-with_offset start k spans h.1)

offsets-IsSorted :
    (start : ℕ) (spans : List Dspan)
    → IsSorted (λ s. s.abs) spans
    → IsSorted (λ s. s.abs) (map (with_offset start) spans)
offsets-IsSorted start [] h = tt
offsets-IsSorted start (s ∷ spans) h =
    (All-with_offset start s.abs spans h.0, offsets-IsSorted start spans h.1)

-- In a merged trace the spans of all nodes are in the order of their instants, each one's offset is
-- the whole milliseconds from the trace's start to its instant, and no offset exceeds the duration.
pub merge-offsets :
    (id : ℕ) (g : List Trace)
    → IsSorted (λ s. s.abs) (merge id g).spans
      × All (IsOffset (merge id g).start) (merge id g).spans
      × All (λ s. s.offset_ms ≤ (merge id g).span_ms) (merge id g).spans
unfolding merge
merge-offsets id g =
    let by_abs : Dspan → ℕ = λ s. s.abs in
    let sorted = sort_on by_abs (all_spans g) in
    let in_order = sort_on-IsSorted by_abs (all_spans g) in
    (
      offsets-IsSorted (first_abs sorted) sorted in_order,
      offsets-All (first_abs sorted) sorted (from_first sorted in_order),
      (widest-All 0 (map (with_offset (first_abs sorted)) sorted)).1,
    )
