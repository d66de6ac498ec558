-- ===== src/Ospf/Trigger.antt =====
-- internal/ingest/ospf.go: when the snapshots are taken (`Run`, `runSyslog`, `reconcileWorker`,
-- `signal`). The goroutines run beside the router, in any order: a step relation. The router's own
-- neighbors and what FRR logs of their changes are part of the state.
use for_visibility.Prelude.{
  ℕ, ◌≡◌, ◌<◌, Bool, true, false, ◌||◌, Option, none, some, List, [], ◌∷◌, ◌++◌, if◌then◌else◌,
  take,
}
use for_visibility.Text.{Bytes, text}
use for_visibility.Text.Split.{has_prefix}
use for_visibility.Ospf.{Ospf, Neighbors, lc, parse_neighbors, reconcile}
use for_visibility.Ospf.Reconcile.{Distinct}

-- strings.Contains(s, sub), of a `sub` that is not empty
unfoldable pub contains : Bytes → Bytes → Bool
contains sub [] = false
contains sub (c ∷ s) = let later = contains sub s in has_prefix (c ∷ s) sub || later

-- a non-blocking send on the channel of capacity one: `true` is a trigger that waits in it
unfoldable pub signal : Bool → Bool
signal pending = true

-- A datagram longer than the buffer is cut. Lowering the ASCII letters is enough to find "ospf".
unfoldable pub is_ospf : Bytes → Bool
unfolding contains
is_ospf msg = contains (text "ospf") (lc (take 8192 msg))

-- the body of the loop of `runSyslog`
unfoldable pub read_message : Bytes → Bool → Bool
unfolding is_ospf signal
read_message msg pending = if is_ospf msg then signal pending else pending

-- The goroutine of `runSyslog`: before it has bound the socket, in its loop, or returned because the
-- socket cannot be bound.
pub data Syslog : Type 0 where
  unbound : Syslog
  draining : Syslog
  off : Syslog

-- The goroutine of `reconcileWorker`: at the receive, in the sleep, and with vtysh's answer.
pub data Worker : Type 0 where
  waiting : Worker
  settling : Worker
  asked : Option (Option Neighbors) → Worker

-- `router` is what vtysh would print now and `socket` the datagrams that wait to be read. `lost` says
-- that a change since vtysh's last answer was not logged to the socket, or that vtysh gave no answer.
pub record System : Type 0 where
  pub router : Neighbors
  pub socket : List Bytes
  pub syslog : Syslog
  pub pending : Bool
  pub worker : Worker
  pub ospf : Ospf
  pub lost : Bool

-- a datagram that FRR sends: it goes nowhere unless the socket is bound
unfoldable pub deliver : Syslog → Bytes → List Bytes → List Bytes
deliver draining msg socket = socket ++ msg ∷ []
deliver unbound msg socket = socket
deliver off msg socket = socket

unfoldable pub misses : Syslog → Bool
misses draining = false
misses unbound = true
misses off = true

unfoldable pub new_ospf : Ospf
new_ospf = record { seen = []; st = [] }

-- `Run` after the startup snapshot, which vtysh answers or not
unfoldable pub started : Neighbors → Bool → System
unfolding new_ospf
started router answers = record {
  router = router;
  socket = [];
  syslog = unbound;
  pending = false;
  worker = waiting;
  ospf = (reconcile new_ospf (if answers then some (some router) else none)).0;
  lost = if answers then false else true;
}

-- One step of the router, of FRR's logging, or of a goroutine. `fallback` is the ticker's period.
pub data Step (fallback : ℕ) (s : System) : System → Type 0 where
  change :
      (router : Neighbors) (msg : Bytes)
      → Distinct (parse_neighbors router)
      → is_ospf msg ≡ true
      → Step fallback s (record s {
        router = router;
        socket = deliver s.syslog msg s.socket;
        lost = s.lost || misses s.syslog;
      })
  log_other : (msg : Bytes) → Step fallback s (record s { socket = deliver s.syslog msg s.socket })
  bind : s.syslog ≡ unbound → Step fallback s (record s { syslog = draining })
  bind_fails : s.syslog ≡ unbound → Step fallback s (record s { syslog = off })
  drain :
      (msg : Bytes) (rest : List Bytes)
      → s.syslog ≡ draining
      → s.socket ≡ msg ∷ rest
      → Step fallback s (record s { socket = rest; pending = read_message msg s.pending })
  tick : 0 < fallback → Step fallback s (record s { pending = signal s.pending })
  receive :
      s.worker ≡ waiting
      → s.pending ≡ true
      → Step fallback s (record s { pending = false; worker = settling })
  ask :
      s.worker ≡ settling
      → Step fallback s (record s { worker = asked (some (some s.router)); lost = false })
  ask_fails : s.worker ≡ settling → Step fallback s (record s { worker = asked none; lost = true })
  store :
      (out : Option (Option Neighbors))
      → s.worker ≡ asked out
      → Step fallback s (record s { worker = waiting; ospf = (reconcile s.ospf out).0 })

pub data Reach (fallback : ℕ) : System → Type 0 where
  start :
      (router : Neighbors) (answers : Bool)
      → Distinct (parse_neighbors router)
      → Reach fallback (started router answers)
  later : {s t : System} → Reach fallback s → Step fallback s t → Reach fallback t
