-- ===== src/Correlate.antt =====
-- internal/correlate/correlate.go: the events of one node folded into convergence traces. An instant
-- and a duration are numbers of nanoseconds; `a.Sub(b) > d` is `b + d < a`. `Run` is a step function
-- over the choices of its `select`: an event received, or a tick.
pub mod Ring
pub mod Openings
pub mod Traces
pub mod Steps
use for_visibility.Prelude.{
  ℕ, suc, ◌+◌, ◌-◌, Bool, true, false, not, ◌&&◌, Option, none, some, List, [], ◌∷◌, ◌++◌, map, ltb,
  if◌then◌else◌, length, drop,
}
use for_visibility.Prelude.Int.{ℤ, sub_ℕ, quot_ℤ}
use for_visibility.Text.{Bytes, text}

pub record Event : Type 0 where
  pub bus : Bytes
  pub kind : Bytes
  pub key : Bytes
  pub detail : Bytes
  pub root : Bool
  pub ts : ℕ

pub record Span : Type 0 where
  pub offset_ms : ℤ
  pub bus : Bytes
  pub kind : Bytes
  pub key : Bytes
  pub detail : Bytes

pub record Trace : Type 0 where
  pub node : Bytes
  pub id : ℕ
  pub root : Bytes
  pub start : ℕ
  pub span_ms : ℤ
  pub spans : List Span

pub record Correlator : Type 0 where
  pub node : Bytes
  pub window : ℕ
  pub idle : ℕ
  pub warmup : ℕ
  pub started : ℕ
  pub ring : List Trace
  pub max : ℕ
  pub seq : ℕ

-- the struct `acc`, the trace under construction
pub record Acc : Type 0 where
  pub start : ℕ
  pub last : ℕ
  pub root : Bytes
  pub churn : Bool
  pub events : List Event

-- `New`, and the start time that `Run` sets: 3 s, 3 s, 15 s, 50 traces
unfoldable pub new : Bytes → ℕ → Correlator
new node started = record {
  node = node;
  window = 3000000000;
  idle = 3000000000;
  warmup = 15000000000;
  started = started;
  ring = [];
  max = 50;
  seq = 0;
}

-- `Emit` on the buffered channel: `none` is a nil correlator; a full buffer drops the event.
unfoldable pub emit : Option (List Event) → Event → Option (List Event)
emit none e = none
emit (some ch) e = some (if ltb (length ch) 1024 then ch ++ e ∷ [] else ch)

-- t.Sub(u).Milliseconds()
abbrev pub millis_between : ℕ → ℕ → ℤ
millis_between t u = quot_ℤ (sub_ℕ t u) 1000000

unfoldable pub span_of : ℕ → Event → Span
span_of start e = record {
  offset_ms = millis_between e.ts start;
  bus = e.bus;
  kind = e.kind;
  key = e.key;
  detail = e.detail;
}

unfoldable pub trace_of : Bytes → ℕ → Acc → Trace
unfolding span_of
trace_of node id a = record {
  node = node;
  id = id;
  root = a.root;
  start = a.start;
  span_ms = millis_between a.last a.start;
  spans = map (span_of a.start) a.events;
}

-- `if len(c.ring) > c.max { c.ring = c.ring[len(c.ring)-c.max:] }`
unfoldable pub trim : ℕ → List Trace → List Trace
trim max ring = if ltb max (length ring) then drop (length ring - max) ring else ring

-- a trace opened by follow events alone is kept from three events on
unfoldable pub is_lone : Acc → Bool
is_lone a = a.churn && ltb (length a.events) 3

abbrev pub has_events : List Event → Bool
has_events [] = false
has_events (e ∷ es) = true

unfoldable pub flush : Correlator → Acc → Correlator
flush c a = if not (has_events a.events) then c else if is_lone a then c else record c {
  seq = suc c.seq;
  ring = trim c.max (c.ring ++ trace_of c.node (suc c.seq) a ∷ []);
}

pub record State : Type 0 where
  pub cor : Correlator
  pub active : Option Acc

-- the flush of an active trace that has been quiet for more than `limit`
unfoldable pub expire : Correlator → Option Acc → ℕ → ℕ → State
expire c none limit now = record { cor = c; active = none }
expire c (some a) limit now =
    if ltb (a.last + limit) now
    then record { cor = flush c a; active = none }
    else record { cor = c; active = some a }

abbrev pub label : Event → Bytes
label e = e.bus ++ text "/" ++ e.kind ++ text " " ++ e.key

abbrev pub churn_label : Event → Bytes
churn_label e = text "churn/" ++ e.bus ++ text "-" ++ e.kind ++ text " " ++ e.key

-- the active trace, or the one that `e` opens; `none` is `continue`
unfoldable pub open_trace : Correlator → ℕ → Option Acc → Event → Option Acc
open_trace c now (some a) e = some a
open_trace c now none e =
    if e.root
    then some (record { start = e.ts; last = e.ts; root = label e; churn = false; events = [] })
    else if ltb now (c.started + c.warmup)
    then none
    else some
        (record { start = e.ts; last = e.ts; root = churn_label e; churn = true; events = [] })

abbrev pub join_event : Event → Option Acc → Option Acc
join_event e none = none
join_event e (some a) = some (record a { last = e.ts; events = a.events ++ e ∷ [] })

pub data Input : Type 0 where
  -- an event received, and what time.Now() gives then
  received : Event → ℕ → Input
  tick : ℕ → Input

-- one round of the loop of `Run`
unfoldable pub step : State → Input → State
step s (received e now) =
    let s' = expire s.cor s.active s.cor.window e.ts in
    record { cor = s'.cor; active = join_event e (open_trace s'.cor now s'.active e) }
step s (tick now) = expire s.cor s.active s.cor.idle now

unfoldable pub run : State → List Input → State
run s [] = s
run s (i ∷ inputs) = run (step s i) inputs

-- `Run` from the start of the process
unfoldable pub run_new : Bytes → ℕ → List Input → State
unfolding run new
run_new node started inputs = run (record { cor = new node started; active = none }) inputs

-- what `ServeHTTP` encodes: a copy of the ring
unfoldable pub served : State → List Trace
served s = s.cor.ring
