-- ===== src/Ospf/Bounded.antt =====
-- How often the OSPF ingester asks vtysh.
use for_visibility.Prelude.{ℕ, ◌+◌, ◌≤◌, ap, arith, if◌then◌else◌}
use for_visibility.Ospf.Trigger.{
  signal, is_ospf, read_message, Worker, waiting, settling, asked, System, started, Step, change,
  log_other, bind, bind_fails, drain, tick, receive, ask, ask_fails, store, Reach, start, later,
}

-- a step that asks vtysh
abbrev pub asks_in : {fallback : ℕ} {s t : System} → Step fallback s t → ℕ
asks_in (ask e) = 1
asks_in (ask_fails e) = 1
asks_in _ = 0

-- a step that signals the worker: an OSPF message that is read, or a tick
abbrev pub signals_in : {fallback : ℕ} {s t : System} → Step fallback s t → ℕ
signals_in (drain msg rest on e) = if is_ospf msg then 1 else 0
signals_in (tick on) = 1
signals_in _ = 0

-- the numbers of both behind the startup snapshot
abbrev pub asks : {fallback : ℕ} {s : System} → Reach fallback s → ℕ
asks (start router answers d) = 0
asks (later r st) = asks r + asks_in st

abbrev pub signals : {fallback : ℕ} {s : System} → Reach fallback s → ℕ
signals (start router answers d) = 0
signals (later r st) = signals r + signals_in st

-- a trigger in the channel, and a worker that has taken one and not asked yet
abbrev pub waiting_trigger : System → ℕ
waiting_trigger s = if s.pending then 1 else 0

abbrev pub taken_trigger : Worker → ℕ
taken_trigger waiting = 0
taken_trigger settling = 1
taken_trigger (asked out) = 0

Step-asks :
    {fallback : ℕ} {s t : System} (st : Step fallback s t)
    → asks_in st + (waiting_trigger t + taken_trigger t.worker)
      ≤ signals_in st + (waiting_trigger s + taken_trigger s.worker)
unfolding read_message signal
Step-asks (change router msg d about) = omega arith
Step-asks (log_other msg) = omega arith
Step-asks (bind e) = omega arith
Step-asks (bind_fails e) = omega arith
Step-asks {s} (drain msg rest on e) = ground arith
Step-asks {s} (tick on) = ground arith
Step-asks {s} (receive e trigger) = ground (arith, ap taken_trigger e)
Step-asks {s} (ask e) = ground (arith, ap taken_trigger e)
Step-asks {s} (ask_fails e) = ground (arith, ap taken_trigger e)
Step-asks {s} (store out e) = ground (arith, ap taken_trigger e)

-- Behind the startup snapshot vtysh is asked at most once for every OSPF message that is read and
-- every tick, however the goroutines take turns; a trigger that waits in the channel, or that the
-- worker has taken and not asked for yet, is one of them.
pub Reach-asks :
    {fallback : ℕ} {s : System} (r : Reach fallback s)
    → asks r + (waiting_trigger s + taken_trigger s.worker) ≤ signals r
unfolding started
Reach-asks (start router answers d) = omega arith
Reach-asks (later r st) = omega (arith, Reach-asks r, Step-asks st)
