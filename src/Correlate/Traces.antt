-- ===== src/Correlate/Traces.antt =====
-- What every served trace is.
use for_visibility.Prelude.{
  ℕ, suc, ◌+◌, ◌-◌, ◌≤◌, ◌≡◌, refl, sym, subst, ap, ◌∙◌, map, true, false, Option, none, some, List,
  [], ◌∷◌, ◌++◌, ltb, length, arith, Bool-cases, inl, inr, All, All-append, All-drop,
}
use for_visibility.Prelude.Int.{sub_ℕ, quot_ℤ}
use for_visibility.Text.{Bytes}
use for_visibility.Correlate.{
  Event, Span, Trace, Correlator, Acc, State, Input, received, tick, new, span_of, trace_of, trim,
  is_lone, has_events, flush, expire, open_trace, join_event, step, run, run_new, served,
}
use for_visibility.Correlate.Openings.{
  Gapped, last_ts, root_label, IsAcc, ActiveOk, joined-IsAcc, open_trace-IsAcc,
}

-- an event as a served span, its offset in milliseconds from the start of the trace
abbrev pub event_span : ℕ → Event → Span
event_span start e = record {
  offset_ms = quot_ℤ (sub_ℕ e.ts start) 1000000;
  bus = e.bus;
  kind = e.kind;
  key = e.key;
  detail = e.detail;
}

-- The trace of a nonempty sequence of events.
pub record IsTrace (window : ℕ) (node : Bytes) (t : Trace) : Type 0 where
  pub first : Event
  pub rest : List Event
  pub at_node : t.node ≡ node
  pub starts : t.start ≡ first.ts
  pub named : t.root ≡ root_label first
  pub ends : t.span_ms ≡ quot_ℤ (sub_ℕ (last_ts first.ts rest) first.ts) 1000000
  pub listed : t.spans ≡ map (event_span first.ts) (first ∷ rest)
  pub gapped : Gapped window first.ts rest
  pub enough : first.root ≡ false → 3 ≤ length (first ∷ rest)

pub record IsState (window : ℕ) (node : Bytes) (s : State) : Type 0 where
  pub traces : All (IsTrace window node) s.cor.ring
  pub active : ActiveOk window s.active
  pub same_node : s.cor.node ≡ node
  pub same_window : s.cor.window ≡ window

-- What `flush` does to a trace with events.
module _ (c : Correlator) (a : Acc) where
  pub flush-lone : is_lone a ≡ true → flush c a ≡ c
  unfolding flush
  flush-lone lone = ground arith

  pub flush-kept :
      has_events a.events ≡ true
      → is_lone a ≡ false
      → flush c a ≡ record c {
        seq = suc c.seq;
        ring = trim c.max (c.ring ++ trace_of c.node (suc c.seq) a ∷ []);
      }
  unfolding flush
  flush-kept more kept = ground arith

-- What `flush` makes of the events of a trace.
span_of-event_span :
    (start : ℕ) (es : List Event) → map (span_of start) es ≡ map (event_span start) es
unfolding span_of
span_of-event_span start es = refl

trace_of-IsTrace :
    (window : ℕ) (node : Bytes) (id : ℕ) (a : Acc)
    → IsAcc window a
    → is_lone a ≡ false
    → IsTrace window node (trace_of node id a)
unfolding trace_of
trace_of-IsTrace window node id a h kept = record {
  first = h.first;
  rest = h.rest;
  at_node = refl;
  starts = h.starts;
  named = h.named;
  ends = rw (h.ends, h.starts) refl;
  listed = rw (h.starts, h.all) (span_of-event_span h.first.ts (h.first ∷ h.rest));
  gapped = h.gapped;
  enough = λ follow. many follow;
}
  where
    many : h.first.root ≡ false → 3 ≤ length (h.first ∷ h.rest)
    many follow =
        unfold is_lone in
        ground (arith, kept, follow, h.churns, ap (λ (es : List Event). length es) h.all)

trim-All :
    (window : ℕ) (node : Bytes) (max : ℕ) (ring : List Trace)
    → All (IsTrace window node) ring
    → All (IsTrace window node) (trim max ring)
trim-All window node max ring h = elim (Bool-cases (ltb max (length ring))) [
  | inl more ↦ unfold trim in rw more (All-drop (IsTrace window node) (length ring - max) ring h)
  | inr fits ↦ unfold trim in rw fits h
]

flush-traces :
    (window : ℕ) (node : Bytes) (c : Correlator) (a : Acc)
    → All (IsTrace window node) c.ring
    → c.node ≡ node
    → IsAcc window a
    → All (IsTrace window node) (flush c a).ring
flush-traces window node c a h e valid = elim (Bool-cases (is_lone a)) [
  | inl lone ↦ rw (flush-lone c a lone) h
  | inr kept ↦ rw (flush-kept c a (ap has_events valid.all) kept) (
      trim-All window node c.max (c.ring ++ trace_of c.node (suc c.seq) a ∷ []) (
        All-append (IsTrace window node) c.ring _ h (
          subst (λ n. IsTrace window node (trace_of n (suc c.seq) a)) (sym e)
              (trace_of-IsTrace window node (suc c.seq) a valid kept),
          tt,
        )))
]

-- `flush` changes neither the node nor the configuration.
flush-config :
    (c : Correlator) (a : Acc) → ((flush c a).node ≡ c.node) × ((flush c a).window ≡ c.window)
unfolding flush
flush-config c a = ground arith

expire-IsState :
    (window : ℕ) (node : Bytes) (c : Correlator) (active : Option Acc) (limit now : ℕ)
    → IsState window node (record { cor = c; active = active })
    → IsState window node (expire c active limit now)
expire-IsState window node c none limit now h = unfold expire in h
expire-IsState window node c (some a) limit now h = elim (Bool-cases (ltb (a.last + limit) now)) [
  | inl late ↦
      unfold expire in
      rw late (record {
        traces = flush-traces window node c a h.traces h.same_node h.active;
        active = tt;
        same_node = (flush-config c a).0 ∙ h.same_node;
        same_window = (flush-config c a).1 ∙ h.same_window;
      })
  | inr soon ↦ unfold expire in rw soon h
]

-- The active trace that a received event finds is close enough for the event to join.
join-near :
    (window now : ℕ) (c : Correlator) (active : Option Acc) (e : Event)
    → c.window ≡ window
    → ActiveOk window active
    → ActiveOk window (
        join_event e (
          open_trace
            (expire c active c.window e.ts).cor
            now
            (expire c active c.window e.ts).active
            e))
join-near window now c none e same h = unfold expire in open_trace-IsAcc window now c e
join-near window now c (some a) e same h = elim (Bool-cases (ltb (a.last + c.window) e.ts)) [
  | inl late ↦ unfold expire in rw late (open_trace-IsAcc window now (flush c a) e)
  | inr soon ↦
      unfold expire in rw soon (unfold open_trace in joined-IsAcc window e a h (near soon same))
]
  where
    near : ltb (a.last + c.window) e.ts ≡ false → c.window ≡ window → e.ts ≤ a.last + window
    near soon same = ground arith

step-IsState :
    (window : ℕ) (node : Bytes) (s : State) (i : Input)
    → IsState window node s
    → IsState window node (step s i)
step-IsState window node s (received e now) h =
    unfold step in
    record {
      traces = quiet.traces;
      active = join-near window now s.cor s.active e h.same_window h.active;
      same_node = quiet.same_node;
      same_window = quiet.same_window;
    }
  where
    quiet : IsState window node (expire s.cor s.active s.cor.window e.ts)
    quiet = expire-IsState window node s.cor s.active s.cor.window e.ts h
step-IsState window node s (tick now) h =
    unfold step in expire-IsState window node s.cor s.active s.cor.idle now h

run-IsState :
    (window : ℕ) (node : Bytes) (s : State) (inputs : List Input)
    → IsState window node s
    → IsState window node (run s inputs)
unfolding run
run-IsState window node s [] h = h
run-IsState window node s (i ∷ inputs) h =
    run-IsState window node (step s i) inputs (step-IsState window node s i h)

-- However events and ticks arrive from the start of the process on, every trace that is served
-- is the trace of a nonempty sequence of events: its start is the instant of the first event, its
-- label is "bus/kind key" of that event, or "churn/bus-kind key" if it is no root, its span is the
-- milliseconds up to the last one, its spans are the events in order, each with its offset from the
-- start, each event came at most 3 s after the one before it, and a sequence whose first event is no
-- root has three events at least.
pub run_new-IsTrace :
    (node : Bytes) (started : ℕ) (inputs : List Input)
    → All (IsTrace 3000000000 node) (served (run_new node started inputs))
unfolding served run_new new
run_new-IsTrace node started inputs =
    (run-IsState 3000000000 node _ inputs
      (record { traces = tt; active = tt; same_node = refl; same_window = refl })).traces
