-- ===== src/Ospf/Invariant.antt =====
-- What holds in every state of the goroutines of internal/ingest/ospf.go.
use for_visibility.Prelude.{
  ℕ, ◌≡◌, refl, sym, ap, subst, Bool, true, false, ◌||◌, Option, none, some, List, [], ◌∷◌, ◌++◌,
  arith,
}
use for_visibility.Prelude.Assoc.{lookup}
use for_visibility.Text.{Bytes, bytes_eq}
use for_visibility.Ospf.{Ospf, Neighbors, parse_neighbors, parse_ospf_nbrs, reconcile}
use for_visibility.Ospf.Reconcile.{Distinct, IsSynced, iface_of, state_of, reconcile-snapshot}
use for_visibility.Ospf.Trigger.{
  signal, is_ospf, read_message, Syslog, unbound, draining, off, Worker, waiting, settling, asked,
  System, deliver, misses, new_ospf, started, Step, change, log_other, bind, bind_fails, drain,
  tick, receive, ask, ask_fails, store, Reach, start, later,
}

-- The ingester remembers the neighbors of `router`, with interface and state, and no other.
abbrev pub Remembers : Ospf → Neighbors → Type 0
Remembers o router =
    (rid : Bytes)
    → (lookup rid o.seen ≡ iface_of (lookup rid (parse_neighbors router)))
      × (lookup rid o.st ≡ state_of (lookup rid (parse_neighbors router)))

abbrev pub any_ospf : List Bytes → Bool
any_ospf [] = false
any_ospf (msg ∷ socket) = is_ospf msg || any_ospf socket

any_ospf-append :
    (socket : List Bytes) (msg : Bytes)
    → any_ospf (socket ++ msg ∷ []) ≡ (any_ospf socket || is_ospf msg)
any_ospf-append [] msg = ground arith
any_ospf-append (m ∷ socket) msg = ground (arith, any_ospf-append socket msg)

abbrev pub is_settling : Worker → Bool
is_settling waiting = false
is_settling settling = true
is_settling (asked out) = false

-- a query of vtysh is still to come, or the last one is no longer to be relied on
abbrev pub due : System → Bool
due s = s.lost || (s.pending || (any_ospf s.socket || is_settling s.worker))

-- what is known of the router when no query is to come
abbrev pub View : Worker → Ospf → Neighbors → Type 0
View waiting o router = Remembers o router
View settling o router = Unit
View (asked out) o router = out ≡ some (some router)

abbrev pub Answered : Worker → Type 0
Answered (asked (some out)) = Distinct (parse_ospf_nbrs out)
Answered (asked none) = Unit
Answered waiting = Unit
Answered settling = Unit

pub record Inv (s : System) : Type 0 where
  pub distinct : Distinct (parse_neighbors s.router)
  pub synced : IsSynced s.ospf
  pub answered : Answered s.worker
  pub fresh : due s ≡ false → View s.worker s.ospf s.router

reconcile-IsSynced :
    (o : Ospf) (out : Option (Option Neighbors))
    → IsSynced o
    → Answered (asked out)
    → IsSynced (reconcile o out).0
unfolding reconcile
reconcile-IsSynced o none synced d rid = synced rid
reconcile-IsSynced o (some out) synced d rid = (reconcile-snapshot o out synced d rid).2

pub reconcile-Remembers :
    (o : Ospf) (router : Neighbors)
    → IsSynced o
    → Distinct (parse_neighbors router)
    → Remembers (reconcile o (some (some router))).0 router
unfolding parse_ospf_nbrs
reconcile-Remembers o router synced d rid =
    let (seen, st, _) = reconcile-snapshot o (some router) synced d rid in (seen, st)

-- a logged change is in the socket, or counted as lost
deliver-noticed :
    (g : Syslog) (msg : Bytes) (socket : List Bytes)
    → is_ospf msg ≡ true
    → (misses g || any_ospf (deliver g msg socket)) ≡ true
unfolding deliver misses
deliver-noticed unbound msg socket about = refl
deliver-noticed draining msg socket about = ground (arith, about, any_ospf-append socket msg)
deliver-noticed off msg socket about = refl

deliver-kept :
    (g : Syslog) (msg : Bytes) (socket : List Bytes)
    → any_ospf (deliver g msg socket) ≡ false
    → any_ospf socket ≡ false
unfolding deliver
deliver-kept unbound msg socket h = h
deliver-kept draining msg socket h = ground (arith, any_ospf-append socket msg)
deliver-kept off msg socket h = h

module _ {s : System} (inv : Inv s) where
  open inv use {distinct, synced, answered, fresh}

  change-Inv :
      (router : Neighbors) (msg : Bytes)
      → Distinct (parse_neighbors router)
      → is_ospf msg ≡ true
      → Inv (record s {
        router = router;
        socket = deliver s.syslog msg s.socket;
        lost = s.lost || misses s.syslog;
      })
  change-Inv router msg d about = record {
    distinct = d;
    synced = synced;
    answered = answered;
    fresh = λ quiet. absurd (ground (arith, deliver-noticed s.syslog msg s.socket about));
  }

  log_other-Inv : (msg : Bytes) → Inv (record s { socket = deliver s.syslog msg s.socket })
  log_other-Inv msg = record {
    distinct = distinct;
    synced = synced;
    answered = answered;
    fresh = λ quiet. fresh (ground (arith, deliver-kept s.syslog msg s.socket));
  }

  drain-Inv :
      (msg : Bytes) (rest : List Bytes)
      → s.socket ≡ msg ∷ rest
      → Inv (record s { socket = rest; pending = read_message msg s.pending })
  unfolding read_message signal
  drain-Inv msg rest e = record {
    distinct = distinct;
    synced = synced;
    answered = answered;
    fresh = λ quiet. fresh (ground (arith, ap any_ospf e));
  }

  store-Inv :
      (out : Option (Option Neighbors))
      → s.worker ≡ asked out
      → Inv (record s { worker = waiting; ospf = (reconcile s.ospf out).0 })
  store-Inv out e = record {
    distinct = distinct;
    synced = reconcile-IsSynced s.ospf out synced (subst Answered e answered);
    answered = tt;
    fresh = λ quiet.
        subst (λ o. Remembers (reconcile s.ospf o).0 s.router) (sym (is_now quiet))
          (reconcile-Remembers s.ospf s.router synced distinct);
  }
    where
      is_now :
          (s.lost || (s.pending || (any_ospf s.socket || false))) ≡ false
          → out ≡ some (some s.router)
      is_now quiet =
          subst (λ w. View w s.ospf s.router) e (fresh (ground (arith, ap is_settling e)))

Step-Inv : {fallback : ℕ} {s t : System} → Step fallback s t → Inv s → Inv t
unfolding signal parse_ospf_nbrs
Step-Inv (change router msg d about) inv = change-Inv inv router msg d about
Step-Inv (log_other msg) inv = log_other-Inv inv msg
Step-Inv (bind e) inv = record {
  distinct = inv.distinct;
  synced = inv.synced;
  answered = inv.answered;
  fresh = inv.fresh;
}
Step-Inv (bind_fails e) inv = record {
  distinct = inv.distinct;
  synced = inv.synced;
  answered = inv.answered;
  fresh = inv.fresh;
}
Step-Inv (drain msg rest on e) inv = drain-Inv inv msg rest e
Step-Inv {s} (tick on) inv = record {
  distinct = inv.distinct;
  synced = inv.synced;
  answered = inv.answered;
  fresh = λ quiet. absurd (ground arith);
}
Step-Inv {s} (receive e trigger) inv = record {
  distinct = inv.distinct;
  synced = inv.synced;
  answered = tt;
  fresh = λ quiet. absurd (ground arith);
}
Step-Inv (ask e) inv = record {
  distinct = inv.distinct;
  synced = inv.synced;
  answered = inv.distinct;
  fresh = λ quiet. refl;
}
Step-Inv (ask_fails e) inv = record {
  distinct = inv.distinct;
  synced = inv.synced;
  answered = tt;
  fresh = λ quiet. absurd (ground arith);
}
Step-Inv (store out e) inv = store-Inv inv out e

started-Inv :
    (router : Neighbors) (answers : Bool)
    → Distinct (parse_neighbors router)
    → Inv (started router answers)
unfolding started new_ospf lookup parse_ospf_nbrs parse_neighbors
started-Inv router true d = record {
  distinct = d;
  synced = reconcile-IsSynced new_ospf (some (some router)) (λ rid e. refl) d;
  answered = tt;
  fresh = λ quiet. reconcile-Remembers new_ospf router (λ rid e. refl) d;
}
started-Inv router false d = record {
  distinct = d;
  synced = reconcile-IsSynced new_ospf none (λ rid e. refl) tt;
  answered = tt;
  fresh = λ quiet. absurd (ground arith);
}

pub Reach-Inv : {fallback : ℕ} {s : System} → Reach fallback s → Inv s
Reach-Inv (start router answers d) = started-Inv router answers d
Reach-Inv (later r st) = Step-Inv st (Reach-Inv r)
