-- ===== src/Pathtrace/Delivery.antt =====
-- `trace` and the delivery of a packet: the loop reports exactly the deliveries that the forwarding
-- relation has within its rounds.
use for_visibility.Prelude.{
  ℕ, zero, suc, ◌≤◌, ◌≡◌, ◌≢◌, ◌↔◌, refl, sym, ap, ◌∙◌, Bool, true, List, [], ◌∷◌, map, length,
  length-map, subst, arith,
}
use for_visibility.Text.{Bytes, text}
use for_visibility.Pathtrace.{Hop, Walk, trace_loop, trace}
use for_visibility.Pathtrace.Loop.{loop-ends, loop-moves, loop-induction}
use for_visibility.Pathtrace.Forwarding.{home, Forwards, Forwards-round, home-round}

-- From round `i` on a packet goes through `nodes`, one a round, and arrives at the destination's node
-- without a label. Every node is in the inventory's address map.
pub data Delivers (w : Walk) : ℕ → List Bytes → Bytes → List Bytes → Type 0 where
  arrived : (i : ℕ) (node : Bytes) → home w ≡ node → Delivers w i (node ∷ []) node []
  forwarded :
      (i : ℕ) (nodes : List Bytes) (node next : Bytes) (stack stack' : List Bytes)
      → Forwards w i node stack next stack'
      → next ≢ text "?"
      → Delivers w (suc i) nodes next stack'
      → Delivers w i (node ∷ nodes) node stack

abbrev pub hop_nodes : List Hop → List Bytes
hop_nodes hops = map (λ h. h.node) hops

abbrev Sound : Walk → ℕ → ℕ → Bytes → List Bytes → List Hop × Bool → Type 0
Sound w fuel i node stack r =
    r.1 ≡ true → (length r.0 ≤ fuel) × Delivers w i (hop_nodes r.0) node stack

module _ (w : Walk) where
  loop-Sound :
      (fuel i seq : ℕ) (node : Bytes) (stack : List Bytes)
      → Sound w fuel i node stack (trace_loop fuel w i seq node stack)
  loop-Sound =
      loop-induction w (λ fuel i seq. Sound w fuel i) (λ i seq node stack t. absurd (ground arith))
        (λ fuel i seq node h at n s t. (omega arith, rw n (arrived i node at)))
        (λ fuel i seq node stack h k n s t. absurd (ground arith))
        (λ fuel i seq node stack h n s t. absurd (ground arith))
        (λ fuel i seq node next stack stack' h r f k n s rest t.
          let (short, path) = rest t in
          (omega (arith, short), rw n (forwarded i _ node next stack stack' f k path)))

  loop_complete :
      (fuel seq : ℕ) {i : ℕ} {nodes : List Bytes} {node : Bytes} {stack : List Bytes}
      → Delivers w i nodes node stack
      → length nodes ≤ fuel
      → ((trace_loop fuel w i seq node stack).1 ≡ true)
        × (hop_nodes (trace_loop fuel w i seq node stack).0 ≡ nodes)
  loop_complete zero seq (arrived i node at_node) l = absurd (omega arith)
  loop_complete zero seq (forwarded i nodes node next st st' f k rest) l = absurd (omega arith)
  loop_complete (suc fuel) seq (arrived i node at_node) l =
      rw (loop-ends fuel w i seq node [] _ true (home-round w i seq node at_node)) (refl, refl)
  loop_complete (suc fuel) seq (forwarded i nodes node next st st' f k rest) l =
      let (h, e, n, s) = Forwards-round w i seq f in
      let (t, ns) = loop_complete fuel (suc seq) rest (omega arith) in
      rw (loop-moves fuel w i seq node st h next st' k e) (t, rw (n, ns) refl)

-- The walk reports that it reached the destination through a list of nodes exactly when the
-- forwarding tables, as they answer round by round, deliver a packet for the destination from the
-- start through these nodes, and these are at most 24: each node forwards it by its longest
-- matching route or by the entry of the top label, and the last one has the destination.
pub trace-Delivers :
    (w : Walk) (start : Bytes) (nodes : List Bytes)
    → (((trace w start).1 ≡ true) × (hop_nodes (trace w start).0 ≡ nodes))
      ↔ ((length nodes ≤ 24) × Delivers w 0 nodes start [])
unfolding trace
trace-Delivers w start nodes = (
  λ h.
      let (short, path) = loop-Sound w 24 0 1 start [] h.0 in
      (
        subst (λ k. k ≤ 24) (sym (length-map (trace w start).0 _) ∙ ap length h.1) short,
        subst (λ ns. Delivers w 0 ns start []) h.1 path,
      ),
  λ h. loop_complete w 24 1 h.1 h.0,
)
