-- ===== src/Ospf/Caught.antt =====
-- The triggers of internal/ingest/ospf.go lose no change that was logged.
use for_visibility.Prelude.{ℕ, ◌≡◌, refl, ap, subst, true, false, [], arith}
use for_visibility.Prelude.Assoc.{lookup}
use for_visibility.Text.{text, bytes_eq}
use for_visibility.Text.Split.{has_prefix}
use for_visibility.Ospf.{Neighbors, lc, parse_neighbors}
use for_visibility.Ospf.Reconcile.{Distinct}
use for_visibility.Ospf.Trigger.{
  contains, is_ospf, draining, waiting, System, deliver, new_ospf, started, change, bind, Reach,
  start, later,
}
use for_visibility.Ospf.Invariant.{
  Remembers, any_ospf, is_settling, View, Reach-Inv, reconcile-Remembers,
}

-- However the router, FRR's logging and the goroutines take turns: whenever nothing waits in the
-- socket or in the channel and the worker waits, the ingester remembers exactly the neighbors that
-- the router has now, each with its interface and its state, if vtysh answered the last query and
-- no change since then happened while the socket was not bound.
pub Reach-Remembers :
    {fallback : ℕ} {s : System}
    → Reach fallback s
    → s.socket ≡ []
    → s.pending ≡ false
    → s.worker ≡ waiting
    → s.lost ≡ false
    → Remembers s.ospf s.router
Reach-Remembers {s = s} r empty idle waits kept =
    subst (λ w. View w s.ospf s.router) waits
      ((Reach-Inv r).fresh (ground (arith, ap any_ospf empty, ap is_settling waits)))

-- Between the startup snapshot and the bind nothing is logged to the socket: whatever the neighbors
-- were at the snapshot, and whatever they become before the bind, the ingester can come to a state in
-- which the socket is bound, nothing waits to be read or done, and it remembers the old neighbors.
pub unbound-Remembers :
    (fallback : ℕ) (old router : Neighbors)
    → Distinct (parse_neighbors old)
    → Distinct (parse_neighbors router)
    → (s : System) × Reach fallback s
      × (s.syslog ≡ draining)
      × (s.socket ≡ [])
      × (s.pending ≡ false)
      × (s.worker ≡ waiting)
      × (s.router ≡ router)
      × Remembers s.ospf old
unfolding started deliver new_ospf lookup is_ospf lc contains text has_prefix
unbound-Remembers fallback old router was now = (
  _,
  later (later (start old true was) (change router (text "OSPF") now refl)) (bind refl),
  refl,
  refl,
  refl,
  refl,
  refl,
  reconcile-Remembers new_ospf old (λ rid e. refl) was,
)
