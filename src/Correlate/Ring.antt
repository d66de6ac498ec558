-- ===== src/Correlate/Ring.antt =====
-- The ring of recent traces: its bound and its numbering.
use for_visibility.Prelude.{
  ℕ, zero, suc, ◌+◌, ◌-◌, ◌≤◌, ◌≡◌, refl, not, Option, none, some, List, [], ◌∷◌, ◌++◌, ltb, length,
  length-append, length-drop, drop, arith, Bool-cases, inl, inr, ◌⊎◌, subst, ltb→lt,
}
use for_visibility.Text.{Bytes}
use for_visibility.Correlate.{
  Event, Trace, Correlator, Acc, State, Input, received, tick, new, emit, trace_of, trim, is_lone,
  has_events, flush, expire, step, run, run_new, served,
}

-- the traces are numbered one after the other, and the last one is number `seq`
abbrev pub Numbered : ℕ → List Trace → Type 0
Numbered seq [] = Unit
Numbered seq (t ∷ ts) = (t.id + length ts ≡ seq) × Numbered seq ts

Numbered-drop : (seq n : ℕ) (ts : List Trace) → Numbered seq ts → Numbered seq (drop n ts)
Numbered-drop seq zero ts h = h
Numbered-drop seq (suc n) [] h = tt
Numbered-drop seq (suc n) (t ∷ ts) h = Numbered-drop seq n ts h.1

Numbered-snoc :
    (seq : ℕ) (ts : List Trace) (t : Trace)
    → Numbered seq ts
    → t.id ≡ suc seq
    → Numbered (suc seq) (ts ++ t ∷ [])
Numbered-snoc seq [] t h e = (omega arith, tt)
Numbered-snoc seq (x ∷ ts) t (h, hs) e =
    (omega (arith, length-append ts (t ∷ [])), Numbered-snoc seq ts t hs e)

pub record IsRing (c : Correlator) : Type 0 where
  pub bounded : length c.ring ≤ c.max
  pub numbered : Numbered c.seq c.ring
  pub kept : c.max ≡ 50

trim-length : (max : ℕ) (ring : List Trace) → length (trim max ring) ≤ max
unfolding trim
trim-length max ring = ground (arith, length-drop (length ring - max) ring)

trim-Numbered : (seq max : ℕ) (ring : List Trace) → Numbered seq ring → Numbered seq (trim max ring)
trim-Numbered seq max ring h = elim (Bool-cases (ltb max (length ring))) [
  | inl more ↦ unfold trim in rw more (Numbered-drop seq (length ring - max) ring h)
  | inr fits ↦ unfold trim in rw fits h
]

flush-IsRing : (c : Correlator) (a : Acc) → IsRing c → IsRing (flush c a)
flush-IsRing c a h = elim (Bool-cases (not (has_events a.events))) [
  | inl empty ↦ unfold flush in rw empty h
  | inr more ↦ elim (Bool-cases (is_lone a)) [
    | inl lone ↦ unfold flush in rw (more, lone) h
    | inr kept ↦
        unfold flush in
        rw (more, kept)
          (record {
            bounded = trim-length c.max _;
            numbered = trim-Numbered (suc c.seq) c.max _ (
                Numbered-snoc c.seq c.ring (trace_of c.node (suc c.seq) a) h.numbered
                  (unfold trace_of in refl));
            kept = h.kept;
          })
  ]
]

expire-IsRing :
    (c : Correlator) (active : Option Acc) (limit now : ℕ)
    → IsRing c
    → IsRing (expire c active limit now).cor
expire-IsRing c none limit now h = unfold expire in h
expire-IsRing c (some a) limit now h = elim (Bool-cases (ltb (a.last + limit) now)) [
  | inl late ↦ unfold expire in rw late (flush-IsRing c a h)
  | inr soon ↦ unfold expire in rw soon h
]

step-IsRing : (s : State) (i : Input) → IsRing s.cor → IsRing (step s i).cor
step-IsRing s (received e now) h = unfold step in expire-IsRing s.cor s.active s.cor.window e.ts h
step-IsRing s (tick now) h = unfold step in expire-IsRing s.cor s.active s.cor.idle now h

run-IsRing : (s : State) (inputs : List Input) → IsRing s.cor → IsRing (run s inputs).cor
unfolding run
run-IsRing s [] h = h
run-IsRing s (i ∷ inputs) h = run-IsRing (step s i) inputs (step-IsRing s i h)

-- Whatever events and ticks come in whatever order, at most 50 traces are served, and they are
-- numbered one after the other, up to the number of traces flushed so far.
pub run_new-IsRing :
    (node : Bytes) (started : ℕ) (inputs : List Input)
    → let s = run_new node started inputs in
      (length (served s) ≤ 50) × Numbered s.cor.seq (served s)
unfolding run_new served
run_new-IsRing node started inputs =
    let h = run-IsRing (record { cor = new node started; active = none }) inputs start in
    (
      subst
          (λ n. length (run (record { cor = new node started; active = none }) inputs).cor.ring ≤ n)
          h.kept h.bounded,
      h.numbered,
    )
  where
    start : IsRing (new node started)
    start = unfold new in record { bounded = omega arith; numbered = tt; kept = refl }

-- The buffer of `Emit` never holds more than 1024 events, and an event is dropped only if it is full.
pub emit-bounded :
    (ch : List Event) (e : Event)
    → length ch ≤ 1024
    → (ch' : List Event) × (emit (some ch) e ≡ some ch')
      × (length ch' ≤ 1024)
      × ((ch' ≡ ch ++ e ∷ []) ⊎ ((ch' ≡ ch) × (length ch ≡ 1024)))
emit-bounded ch e h = elim (Bool-cases (ltb (length ch) 1024)) [
  | inl room ↦ (
    ch ++ e ∷ [],
    unfold emit in rw room,
    omega (arith, length-append ch (e ∷ []), ltb→lt (length ch) 1024 room),
    inl refl,
  )
  | inr full ↦ (ch, unfold emit in rw full, h, inr (refl, ground arith))
]
