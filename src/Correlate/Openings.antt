-- ===== src/Correlate/Openings.antt =====
-- A trace under construction: a run of events, each close to the one before it.
use for_visibility.Prelude.{
  ℕ, ◌+◌, ◌≤◌, ◌≡◌, refl, sym, ap, subst, Bool, true, false, not, Option, none, some, List, [], ◌∷◌,
  ◌++◌, ltb, if◌then◌else◌, arith, Bool-cases, inl, inr,
}
use for_visibility.Text.{Bytes, text}
use for_visibility.Correlate.{Event, Correlator, Acc, label, churn_label, open_trace, join_event}

-- Each event came at most `window` after the one that was received before it.
abbrev pub Gapped : ℕ → ℕ → List Event → Type 0
Gapped window last [] = Unit
Gapped window last (e ∷ es) = (e.ts ≤ last + window) × Gapped window e.ts es

abbrev pub last_ts : ℕ → List Event → ℕ
last_ts last [] = last
last_ts last (e ∷ es) = last_ts e.ts es

-- "bus/kind key" of a root, "churn/bus-kind key" of a follow event
abbrev pub root_label : Event → Bytes
root_label e =
    if e.root
    then e.bus ++ text "/" ++ e.kind ++ text " " ++ e.key
    else text "churn/" ++ e.bus ++ text "-" ++ e.kind ++ text " " ++ e.key

-- A trace under construction, with the event that opened it and those that joined.
pub record IsAcc (window : ℕ) (a : Acc) : Type 0 where
  pub first : Event
  pub rest : List Event
  pub all : a.events ≡ first ∷ rest
  pub starts : a.start ≡ first.ts
  pub ends : a.last ≡ last_ts first.ts rest
  pub named : a.root ≡ root_label first
  pub churns : a.churn ≡ not first.root
  pub gapped : Gapped window first.ts rest

abbrev pub ActiveOk : ℕ → Option Acc → Type 0
ActiveOk window none = Unit {0}
ActiveOk window (some a) = IsAcc window a

Gapped-snoc :
    (window last : ℕ) (es : List Event) (e : Event)
    → Gapped window last es
    → e.ts ≤ last_ts last es + window
    → Gapped window last (es ++ e ∷ [])
Gapped-snoc window last [] e h near = (near, tt)
Gapped-snoc window last (x ∷ es) e (h, hs) near = (h, Gapped-snoc window x.ts es e hs near)

last_ts-snoc : (last : ℕ) (es : List Event) (e : Event) → last_ts last (es ++ e ∷ []) ≡ e.ts
last_ts-snoc last [] e = refl
last_ts-snoc last (x ∷ es) e = last_ts-snoc x.ts es e

abbrev joined : Event → Acc → Acc
joined e a = record a { last = e.ts; events = a.events ++ e ∷ [] }

pub joined-IsAcc :
    (window : ℕ) (e : Event) (a : Acc)
    → IsAcc window a
    → e.ts ≤ a.last + window
    → IsAcc window (joined e a)
joined-IsAcc window e a h near = record {
  first = h.first;
  rest = h.rest ++ e ∷ [];
  all = ap (λ es. es ++ e ∷ []) h.all;
  starts = h.starts;
  ends = sym (last_ts-snoc h.first.ts h.rest e);
  named = h.named;
  churns = h.churns;
  gapped =
      Gapped-snoc window h.first.ts h.rest e h.gapped (subst (λ n. e.ts ≤ n + window) h.ends near);
}

-- the trace that an event opens, before the event joins it
abbrev pub opened : Event → Bytes → Bool → Acc
opened e root churn = record { start = e.ts; last = e.ts; root = root; churn = churn; events = [] }

module _ (c : Correlator) (now : ℕ) (e : Event) where
  pub open_trace-root : e.root ≡ true → open_trace c now none e ≡ some (opened e (label e) false)
  unfolding open_trace
  open_trace-root root = ground arith

  pub open_trace-warm :
      e.root ≡ false → ltb now (c.started + c.warmup) ≡ true → open_trace c now none e ≡ none
  unfolding open_trace
  open_trace-warm follow warm = ground arith

  pub open_trace-churn :
      e.root ≡ false
      → ltb now (c.started + c.warmup) ≡ false
      → open_trace c now none e ≡ some (opened e (churn_label e) true)
  unfolding open_trace
  open_trace-churn follow warmed = ground arith

opened-IsAcc :
    (window : ℕ) (e : Event) (root : Bytes) (churn : Bool)
    → root ≡ root_label e
    → churn ≡ not e.root
    → IsAcc window (joined e (opened e root churn))
opened-IsAcc window e root churn named churns = record {
  first = e;
  rest = [];
  all = refl;
  starts = refl;
  ends = refl;
  named = named;
  churns = churns;
  gapped = tt;
}

pub open_trace-IsAcc :
    (window now : ℕ) (c : Correlator) (e : Event)
    → ActiveOk window (join_event e (open_trace c now none e))
open_trace-IsAcc window now c e = elim (Bool-cases e.root) [
  | inl root ↦
      rw (open_trace-root c now e root)
        (opened-IsAcc window e (label e) false (ground arith) (ground arith))
  | inr follow ↦ elim (Bool-cases (ltb now (c.started + c.warmup))) [
    | inl warm ↦ rw (open_trace-warm c now e follow warm) tt
    | inr warmed ↦
        rw (open_trace-churn c now e follow warmed)
          (opened-IsAcc window e (churn_label e) true (ground arith) (ground arith))
  ]
]
