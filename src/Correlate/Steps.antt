-- ===== src/Correlate/Steps.antt =====
-- What one event or one tick does to the correlator: the startup filter, the opening of a trace and
-- its delivery.
use for_visibility.Prelude.{
  ℕ, suc, ◌+◌, ◌-◌, ◌<◌, ◌≤◌, ◌≡◌, refl, true, false, none, some, List, [], ◌∷◌, ◌++◌, ltb, length,
  length-append, drop, drop-append_short, arith, Bool-cases, inl, inr, All,
}
use for_visibility.Text.{Bytes}
use for_visibility.Correlate.{
  Event, Trace, Correlator, Acc, State, Input, received, tick, churn_label, new, trace_of, trim,
  is_lone, has_events, flush, expire, open_trace, step, run, run_new, served,
}
use for_visibility.Correlate.Openings.{open_trace-warm, open_trace-churn}
use for_visibility.Correlate.Traces.{flush-kept}

-- What the startup full sync consists of: follow events, while the process warms up.
abbrev pub IsSync : Correlator → Input → Type 0
IsSync c (received e now) = (e.root ≡ false) × (ltb now (c.started + c.warmup) ≡ true)
IsSync c (tick now) = Unit {0}

run-sync :
    (c : Correlator) (inputs : List Input)
    → All (IsSync c) inputs
    → run (record { cor = c; active = none }) inputs ≡ record { cor = c; active = none }
unfolding run step expire
run-sync c [] h = refl
run-sync c (received e now ∷ inputs) ((follow, warm), h) =
    rw (open_trace-warm c now e follow warm) (run-sync c inputs h)
run-sync c (tick now ∷ inputs) (i, h) = run-sync c inputs h

-- The startup full sync leaves the correlator as it was: when all that is received are follow
-- events within the first 15 s, with ticks at any times, no trace is opened and none is served.
pub run_new-sync :
    (node : Bytes) (started : ℕ) (inputs : List Input)
    → All (IsSync (new node started)) inputs
    → run_new node started inputs ≡ record { cor = new node started; active = none }
unfolding run_new
run_new-sync node started inputs h = run-sync (new node started) inputs h

-- Once the warm-up has passed, a follow event with no active trace is not dropped: it opens a
-- churn trace, of which it is the first event.
step-churn :
    (c : Correlator) (e : Event) (now : ℕ)
    → e.root ≡ false
    → c.started + c.warmup ≤ now
    → step (record { cor = c; active = none }) (received e now) ≡ record {
      cor = c;
      active = some (record {
        start = e.ts;
        last = e.ts;
        root = churn_label e;
        churn = true;
        events = e ∷ [];
      });
    }
unfolding step expire
step-churn c e now follow warmed = rw (open_trace-churn c now e follow (past warmed)) refl
  where
    past : c.started + c.warmup ≤ now → ltb now (c.started + c.warmup) ≡ false
    past h = ground arith

-- `trim` never drops the newest trace.
trim-newest :
    (max : ℕ) (ring : List Trace) (t : Trace)
    → 0 < max
    → (older : List Trace) × (trim max (ring ++ t ∷ []) ≡ older ++ t ∷ [])
trim-newest max ring t h = elim (Bool-cases (ltb max (length (ring ++ t ∷ [])))) [
  | inl more ↦ (
    drop (length (ring ++ t ∷ []) - max) ring,
    unfold trim in rw more (drop-append_short _ ring (t ∷ []) short),
  )
  | inr fits ↦ (ring, unfold trim in rw fits refl)
]
  where
    short : length (ring ++ t ∷ []) - max ≤ length ring
    short = rw (length-append ring (t ∷ [])) (omega arith)

expire-late :
    (c : Correlator) (a : Acc) (limit now : ℕ)
    → a.last + limit < now
    → expire c (some a) limit now ≡ record { cor = flush c a; active = none }
unfolding expire
expire-late c a limit now h = ground arith

module _ (s : State) (a : Acc) (now : ℕ) where
  -- A tick that finds the active trace quiet for longer than the idle time delivers it: the
  -- trace becomes the newest one served, under the next id, and no trace is active any more.
  -- The trace has events, it is no lone churn trace, and the ring holds at least one.
  pub step-delivers :
      s.active ≡ some a
      → has_events a.events ≡ true
      → is_lone a ≡ false
      → a.last + s.cor.idle < now
      → 0 < s.cor.max
      → ((step s (tick now)).active ≡ none)
        × ((older : List Trace) × (served (step s (tick now))
              ≡ older ++ trace_of s.cor.node (suc s.cor.seq) a ∷ []))
  unfolding served step
  step-delivers active more kept quiet room =
      rw (active, expire-late s.cor a s.cor.idle now quiet, flush-kept s.cor a more kept)
        (refl, trim-newest s.cor.max s.cor.ring (trace_of s.cor.node (suc s.cor.seq) a) room)

-- an event that comes soon enough joins the active trace
step-joins :
    (c : Correlator) (a : Acc) (e : Event) (now : ℕ)
    → e.ts ≤ a.last + c.window
    → step (record { cor = c; active = some a }) (received e now)
      ≡ record { cor = c; active = some (record a { last = e.ts; events = a.events ++ e ∷ [] }) }
step-joins c a e now near = unfold step in rw (expire-soon (past near)) (unfold open_trace in refl)
  where
    past : e.ts ≤ a.last + c.window → ltb (a.last + c.window) e.ts ≡ false
    past h = ground arith

    expire-soon :
        ltb (a.last + c.window) e.ts ≡ false
        → expire c (some a) c.window e.ts ≡ record { cor = c; active = some a }
    expire-soon soon = unfold expire in rw soon refl

-- the trace of three follow events
abbrev pub churn_acc : Event → Event → Event → Acc
churn_acc x y z = record {
  start = x.ts;
  last = z.ts;
  root = churn_label x;
  churn = true;
  events = x ∷ y ∷ z ∷ [];
}

-- After the warm-up, three events in a row, each within the window of the one before it and the
-- first of them no root, followed by a tick when they have been quiet for longer than the idle time,
-- are served as a trace, the newest one: follow events need no root. No trace is active before.
pub run-churn :
    (c : Correlator) (x y z : Event) (now now_y now_z late : ℕ)
    → x.root ≡ false
    → c.started + c.warmup ≤ now
    → y.ts ≤ x.ts + c.window
    → z.ts ≤ y.ts + c.window
    → z.ts + c.idle < late
    → 0 < c.max
    → (older : List Trace) × (served (
          run
            (record { cor = c; active = none })
            (received x now ∷ received y now_y ∷ received z now_z ∷ tick late ∷ []))
        ≡ older ++ trace_of c.node (suc c.seq) (churn_acc x y z) ∷ [])
unfolding run
run-churn c x y z now now_y now_z late follow warmed near_y near_z quiet room =
    rw
      (
        step-churn c x now follow warmed,
        step-joins c (opened_with x) y now_y near_y,
        step-joins c (record (opened_with x) { last = y.ts; events = x ∷ y ∷ [] }) z now_z near_z,
      )
      (step-delivers (record { cor = c; active = some (churn_acc x y z) }) (churn_acc x y z) late
        refl refl (unfold is_lone in refl) quiet room).1
  where
    opened_with : Event → Acc
    opened_with e = record {
      start = e.ts;
      last = e.ts;
      root = churn_label e;
      churn = true;
      events = e ∷ [];
    }
