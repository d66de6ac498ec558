-- ===== src/Ospf/Settles.antt =====
-- The goroutines of internal/ingest/ospf.go catch up by their own steps.
use for_visibility.Prelude.{ℕ, suc, ◌≤◌, ◌≡◌, Bool, true, false, not, ◌&&◌, ◌||◌, []}
use for_visibility.Ospf.{Ospf}
use for_visibility.Ospf.Trigger.{
  waiting, System, Step, change, log_other, bind, bind_fails, drain, tick, receive, ask, ask_fails,
  store,
}
use for_visibility.Ospf.Invariant.{any_ospf, is_settling}

-- a step of the reader or of the worker, in which vtysh answers
abbrev pub is_own : {fallback : ℕ} {s t : System} → Step fallback s t → Bool
is_own (change router msg d about) = false
is_own (log_other msg) = false
is_own (bind e) = false
is_own (bind_fails e) = false
is_own (drain msg rest on e) = true
is_own (tick on) = false
is_own (receive e trigger) = true
is_own (ask e) = true
is_own (ask_fails e) = false
is_own (store out e) = true

-- `n` own steps from one state to another
pub data Goes (fallback : ℕ) : ℕ → System → System → Type 0 where
  stays : {s : System} → Goes fallback 0 s s
  goes :
      {n : ℕ} {s t u : System}
      → (st : Step fallback s t) → is_own st ≡ true
      → Goes fallback n t u
      → Goes fallback (suc n) s u

-- a query of vtysh is still to come
abbrev pub wakes : System → Bool
wakes s = s.pending || (any_ospf s.socket || is_settling s.worker)

-- The end of such a run: the state `u`, in which nothing is left to do.
pub record Rest (fallback : ℕ) (s : System) (bound : ℕ) : Type 0 where
  pub u : System
  pub n : ℕ
  pub run : Goes fallback n s u
  pub few : n ≤ bound
  pub empty : u.socket ≡ []
  pub idle : u.pending ≡ false
  pub waits : u.worker ≡ waiting
  pub router : u.router ≡ s.router
  pub kept : (s.lost && not (wakes s)) ≡ false → u.lost ≡ false
