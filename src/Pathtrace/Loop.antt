-- ===== src/Pathtrace/Loop.antt =====
-- The loop of `trace` by what each round does, and an induction on its rounds.
use for_visibility.Prelude.{
  ℕ, zero, suc, ◌≡◌, ◌≢◌, ◌⊎◌, inl, inr, refl, Bool, true, false, Bool-cases, List, [], ◌∷◌, arith,
}
use for_visibility.Text.{Bytes, text, bytes_beq, bytes_beq_iff, bytes_beq_refl}
use for_visibility.Pathtrace.{Hop, Round, ends, moves, Walk, round, unknown_hop, trace_loop}
use for_visibility.Pathtrace.Forwarding.{
  home, Forwards, Seen, seen_home, seen_drop, seen_move, round-Seen,
}

module _ (fuel : ℕ) (w : Walk) (i seq : ℕ) (node : Bytes) (stack : List Bytes) (h : Hop) where
  pub loop-ends :
      (reached : Bool)
      → round w i seq node stack ≡ ends h reached
      → trace_loop (suc fuel) w i seq node stack ≡ (h ∷ [], reached)
  unfolding trace_loop
  loop-ends reached e = rw (trace_loop, e) refl

  pub loop-unknown :
      (next : Bytes) (stack' : List Bytes)
      → next ≡ text "?"
      → round w i seq node stack ≡ moves h next stack'
      → trace_loop (suc fuel) w i seq node stack ≡ (h ∷ unknown_hop (suc seq) ∷ [], false)
  unfolding trace_loop
  loop-unknown next stack' u e = rw (trace_loop, e, u, bytes_beq_refl (text "?")) refl

  pub loop-moves :
      (next : Bytes) (stack' : List Bytes)
      → next ≢ text "?"
      → round w i seq node stack ≡ moves h next stack'
      → trace_loop (suc fuel) w i seq node stack ≡ (
        h ∷ (trace_loop fuel w (suc i) (suc seq) next stack').0,
        (trace_loop fuel w (suc i) (suc seq) next stack').1,
      )
  unfolding trace_loop
  loop-moves next stack' k e = rw (trace_loop, e, not_unknown) refl
    where
      not_unknown : bytes_beq next (text "?") ≡ false
      not_unknown = ground (arith, k, bytes_beq_iff next (text "?"))

pub unknown-cases : (next : Bytes) → (next ≡ text "?") ⊎ (next ≢ text "?")
unknown-cases next = elim (Bool-cases (bytes_beq next (text "?"))) [
  | inl e ↦ inl ((bytes_beq_iff next (text "?")).0 e)
  | inr e ↦ inr (λ u. ground (arith, e, u, bytes_beq_iff next (text "?")))
]

-- A property of the loop's result follows when it holds where the rounds are used up and is kept by
-- each thing that a round does.
module _ (w : Walk) (P : ℕ → ℕ → ℕ → Bytes → List Bytes → List Hop × Bool → Type 0)
    (spent : (i seq : ℕ) (node : Bytes) (stack : List Bytes) → P zero i seq node stack ([], false))
    (at_home : (fuel i seq : ℕ) (node : Bytes) (h : Hop)
      → home w ≡ node
      → h.node ≡ node
      → h.seq ≡ seq
      → P (suc fuel) i seq node [] (h ∷ [], true))
    (dropped : (fuel i seq : ℕ) (node : Bytes) (stack : List Bytes) (h : Hop)
      → h.kind ≡ text "drop"
      → h.node ≡ node
      → h.seq ≡ seq
      → P (suc fuel) i seq node stack (h ∷ [], false))
    (lost : (fuel i seq : ℕ) (node : Bytes) (stack : List Bytes) (h : Hop)
      → h.node ≡ node
      → h.seq ≡ seq
      → P (suc fuel) i seq node stack (h ∷ unknown_hop (suc seq) ∷ [], false))
    (moved : (fuel i seq : ℕ) (node next : Bytes) (stack stack' : List Bytes) (h : Hop)
        (r : List Hop × Bool)
      → Forwards w i node stack next stack'
      → next ≢ text "?"
      → h.node ≡ node
      → h.seq ≡ seq
      → P fuel (suc i) (suc seq) next stack' r
      → P (suc fuel) i seq node stack (h ∷ r.0, r.1)) where
  after_round :
      (fuel i seq : ℕ) {node : Bytes} {stack : List Bytes} {r : Round}
      → ((j s : ℕ) (n : Bytes) (st : List Bytes) → P fuel j s n st (trace_loop fuel w j s n st))
      → Seen w i seq node stack r
      → round w i seq node stack ≡ r
      → P (suc fuel) i seq node stack (trace_loop (suc fuel) w i seq node stack)
  after_round fuel i seq {node} ih (seen_home h at n s) e =
      rw (loop-ends fuel w i seq node [] h true e) (at_home fuel i seq node h at n s)
  after_round fuel i seq {node} ih (seen_drop stack h k n s) e =
      rw (loop-ends fuel w i seq node stack h false e) (dropped fuel i seq node stack h k n s)
  after_round fuel i seq {node} ih (seen_move stack h next stack' f n s) e =
      elim (unknown-cases next) [
        | inl u ↦
            rw (loop-unknown fuel w i seq node stack h next stack' u e)
              (lost fuel i seq node stack h n s)
        | inr k ↦
            rw (loop-moves fuel w i seq node stack h next stack' k e) (
              moved fuel i seq node next stack stack' h _ f k n s
                (ih (suc i) (suc seq) next stack'))
      ]

  pub loop-induction :
      (fuel i seq : ℕ) (node : Bytes) (stack : List Bytes)
      → P fuel i seq node stack (trace_loop fuel w i seq node stack)
  loop-induction zero i seq node stack = unfold trace_loop in spent i seq node stack
  loop-induction (suc fuel) i seq node stack =
      after_round fuel i seq (loop-induction fuel) (round-Seen w i seq node stack) refl
