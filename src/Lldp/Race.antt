-- ===== src/Lldp/Race.antt =====
-- internal/ingest/lldp.go: `Run` calls `reconcile` from two goroutines, the ticker's and the one that
-- reads `lldpcli watch`, without a lock. A step relation: lldpd and the two take turns.
use for_visibility.Prelude.{
  ◌≡◌, refl, ap, ◌∙◌, false, Option, some, List, [], ◌∷◌, ◌++◌, append_assoc, subst,
}
use for_visibility.Prelude.Assoc.{Map, lookup, insert}
use for_visibility.Text.{Bytes, text, bytes_beq, bytes_eq, bytes_beq_refl}
use for_visibility.Gnmi.{Effect, cache_update, elems_path}
use for_visibility.Lldp.Values.{Fields}
use for_visibility.Lldp.{
  Lldp, LldpNbr, lldp_elems, parse_lldp, nbr_update, report_ifaces, delete_gone, delete_ifaces,
  reconcile,
}

-- Where a call of `reconcile` stands: none, before the loop over the answer of lldpcli, before the
-- loop over `l.seen`, and before `l.seen = seen`.
pub data Phase : Type 0 where
  idle : Phase
  asked : Option Fields → Phase
  reported : Map Bytes Bytes → Phase
  swept : Map Bytes Bytes → Phase

-- `out` is what lldpcli would print now, and `calls` the cache updates so far.
pub record Shared : Type 0 where
  pub out : Option Fields
  pub seen : Map Bytes Bytes
  pub calls : List Effect

-- one step of a call of `reconcile`
pub data Move (s : Shared) : Phase → Shared → Phase → Type 0 where
  ask : Move s idle s (asked s.out)
  ask_fails : Move s idle s idle
  report :
      (out : Option Fields)
      → Move s
          (asked out)
          (record s { calls = s.calls ++ (report_ifaces [] (parse_lldp out)).1 })
          (reported (report_ifaces [] (parse_lldp out)).0)
  sweep :
      (seen : Map Bytes Bytes)
      → Move s
          (reported seen)
          (record s { calls = s.calls ++ delete_ifaces seen s.seen })
          (swept seen)
  store : (seen : Map Bytes Bytes) → Move s (swept seen) (record s { seen = seen }) idle

pub record System : Type 0 where
  pub shared : Shared
  pub ticker : Phase
  pub watcher : Phase

pub data Step (s : System) : System → Type 0 where
  change : (out : Option Fields) → Step s (record s { shared = record s.shared { out = out } })
  tick :
      {t : Shared} {p : Phase}
      → Move s.shared s.ticker t p
      → Step s (record s { shared = t; ticker = p })
  watch :
      {t : Shared} {p : Phase}
      → Move s.shared s.watcher t p
      → Step s (record s { shared = t; watcher = p })

unfoldable pub new_lldp : Lldp
new_lldp = record { seen = [] }

-- `Run` after the first `reconcile`, which lldpcli answers
unfoldable pub started : Option Fields → System
unfolding reconcile new_lldp
started out = record {
  shared = record {
    out = out;
    seen = (reconcile new_lldp (some out)).0.seen;
    calls = (reconcile new_lldp (some out)).1;
  };
  ticker = idle;
  watcher = idle;
}

pub data Reach : System → Type 0 where
  start : (out : Option Fields) → Reach (started out)
  later : {s t : System} → Reach s → Step s t → Reach t

pub data Moves : Shared → Phase → Shared → Phase → Type 0 where
  stays : {s : Shared} {p : Phase} → Moves s p s p
  moves : {s t u : Shared} {p q r : Phase} → Move s p t q → Moves t q u r → Moves s p u r

-- A call of `reconcile` that nothing interrupts does what `reconcile` does: `l.seen` and the cache
-- updates are the ones of the sequential function.
pub Moves-reconcile :
    (s : Shared)
    → Moves s idle
        (record s {
          seen = (reconcile (record { seen = s.seen }) (some s.out)).0.seen;
          calls = s.calls ++ (reconcile (record { seen = s.seen }) (some s.out)).1;
        })
        idle
unfolding reconcile
Moves-reconcile s =
    subst
      (λ calls.
        Moves s idle (record s { seen = (report_ifaces [] (parse_lldp s.out)).0; calls = calls })
          idle)
      (append_assoc s.calls _ _)
      (moves ask (moves (report s.out) (moves (sweep _) (moves (store _) stays))))

report_ifaces-one :
    (ifn : Bytes) (nb : LldpNbr)
    → bytes_beq nb.chassis_id [] ≡ false
    → report_ifaces [] ((ifn, nb) ∷ []) ≡ ((ifn, nb.chassis_id) ∷ [], nbr_update ifn nb ∷ [])
unfolding report_ifaces insert
report_ifaces-one ifn nb has_id = rw (has_id) refl

delete_ifaces-one :
    (ifn id : Bytes)
    → delete_ifaces [] ((ifn, id) ∷ [])
      ≡ cache_update (text "openconfig") [] (elems_path (lldp_elems ifn id []) ∷ []) ∷ []
unfolding delete_ifaces lookup delete_gone
delete_ifaces-one ifn id = refl

delete_ifaces-same : (ifn id : Bytes) → delete_ifaces ((ifn, id) ∷ []) ((ifn, id) ∷ []) ≡ []
unfolding delete_ifaces lookup delete_gone
delete_ifaces-same ifn id = rw (bytes_beq_refl ifn) refl

delete_ifaces-none : (seen : Map Bytes Bytes) → delete_ifaces seen [] ≡ []
unfolding delete_ifaces
delete_ifaces-none seen = refl

report_ifaces-nil : report_ifaces [] [] ≡ ([], [])
unfolding report_ifaces
report_ifaces-nil = refl

-- Two calls that overlap can leave an entry in the cache for good. For every neighbor that lldpd
-- shows alone at the start and no longer at the end, there is an order of the steps after which no
-- call is left, `l.seen` is empty, the last cache update wrote the neighbor's entry, and a further
-- `reconcile` updates nothing.
pub Reach-stale :
    (out gone : Option Fields) (ifn : Bytes) (nb : LldpNbr)
    → parse_lldp out ≡ (ifn, nb) ∷ []
    → parse_lldp gone ≡ []
    → bytes_beq nb.chassis_id [] ≡ false
    → (s : System) × Reach s
      × (s.ticker ≡ idle)
      × (s.watcher ≡ idle)
      × (s.shared.out ≡ gone)
      × (s.shared.seen ≡ [])
      × (s.shared.calls
          ≡ nbr_update ifn nb
            ∷ cache_update
                (text "openconfig")
                []
                (elems_path (lldp_elems ifn nb.chassis_id []) ∷ [])
            ∷ nbr_update ifn nb
            ∷ [])
      × ((reconcile (record { seen = s.shared.seen }) (some gone)).1 ≡ [])
unfolding started new_lldp reconcile
Reach-stale out gone ifn nb shown absent has_id = (
  _,
  later
      (later
        (later
          (later
            (later
              (later
                (later (later (later (later (start out) (watch ask)) (change gone)) (tick ask))
                  (tick (report gone)))
                (tick (sweep _)))
              (watch (report out)))
            (watch (sweep _)))
          (watch (store _)))
        (tick (store _)))
      (change gone),
  refl,
  refl,
  refl,
  ap (λ r. r.0) reported_gone,
  rw
      (
        reported_gone,
        reported_shown,
        delete_ifaces-none ((ifn, nb.chassis_id) ∷ []),
        delete_ifaces-one ifn nb.chassis_id,
        delete_ifaces-same ifn nb.chassis_id,
      )
      refl,
  rw (reported_gone, delete_ifaces-none []) refl,
)
  where
    reported_shown :
        report_ifaces [] (parse_lldp out) ≡ ((ifn, nb.chassis_id) ∷ [], nbr_update ifn nb ∷ [])
    reported_shown = ap (report_ifaces []) shown ∙ report_ifaces-one ifn nb has_id

    reported_gone : report_ifaces [] (parse_lldp gone) ≡ ([], [])
    reported_gone = ap (report_ifaces []) absent ∙ report_ifaces-nil
