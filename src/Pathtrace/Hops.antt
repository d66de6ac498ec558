-- ===== src/Pathtrace/Hops.antt =====
-- The list of hops that `trace` returns: its size and numbers, and how a walk that fails ends.
use for_visibility.Prelude.{
  ℕ, zero, suc, ◌≤◌, ◌≡◌, ◌⊎◌, inl, inr, refl, ap, Bool, false, List, [], ◌∷◌, map, length, arith,
}
use for_visibility.Text.{Bytes, text}
use for_visibility.Pathtrace.{Hop, Walk, trace_loop, trace}
use for_visibility.Pathtrace.Loop.{loop-induction}

-- `n` numbers from `k` on
abbrev pub count : ℕ → ℕ → List ℕ
count k zero = []
count k (suc n) = k ∷ count (suc k) n

abbrev pub hop_seqs : List Hop → List ℕ
hop_seqs hops = map (λ h. h.seq) hops

-- the kind of the last hop
abbrev pub last_kind : List Hop → Bytes
last_kind [] = []
last_kind (h ∷ []) = h.kind
last_kind (h ∷ g ∷ hops) = last_kind (g ∷ hops)

abbrev Numbered : ℕ → ℕ → List Hop × Bool → Type 0
Numbered fuel seq r = (length r.0 ≤ suc fuel) × (hop_seqs r.0 ≡ count seq (length r.0))

abbrev GivenUp : ℕ → List Hop × Bool → Type 0
GivenUp fuel r = r.1 ≡ false → (last_kind r.0 ≡ text "drop") ⊎ (length r.0 ≡ fuel)

last_drop :
    (h : Hop) (hops : List Hop) → last_kind hops ≡ text "drop" → last_kind (h ∷ hops) ≡ text "drop"
last_drop h [] e = absurd (unfold text in ground arith)
last_drop h (g ∷ hops) e = e

module _ (w : Walk) where
  loop-Numbered :
      (fuel i seq : ℕ) (node : Bytes) (stack : List Bytes)
      → Numbered fuel seq (trace_loop fuel w i seq node stack)
  loop-Numbered =
      loop-induction w (λ fuel i seq node stack. Numbered fuel seq)
        (λ i seq node stack. (omega arith, refl))
        (λ fuel i seq node h at n s. (omega arith, rw s refl))
        (λ fuel i seq node stack h k n s. (omega arith, rw s refl))
        (λ fuel i seq node stack h n s. (omega arith, rw s refl))
        (λ fuel i seq node next stack stack' h r f k n s rest.
          (omega (arith, rest.0), rw (s, rest.1) refl))

  loop-GivenUp :
      (fuel i seq : ℕ) (node : Bytes) (stack : List Bytes)
      → GivenUp fuel (trace_loop fuel w i seq node stack)
  loop-GivenUp =
      loop-induction w (λ fuel i seq node stack. GivenUp fuel) (λ i seq node stack t. inr refl)
        (λ fuel i seq node h at n s t. absurd (ground arith))
        (λ fuel i seq node stack h k n s t. inl k) (λ fuel i seq node stack h n s t. inl refl)
        (λ fuel i seq node next stack stack' h r f k n s rest t. elim (rest t) [
          | inl d ↦ inl (last_drop h r.0 d)
          | inr l ↦ inr (ap suc l)
        ])

  -- A walk has at most 25 hops, 24 rounds and the mark of a next hop that is not in the inventory,
  -- and they are numbered 1, 2, 3 and so on.
  pub trace-numbered :
      (start : Bytes)
      → (length (trace w start).0 ≤ 25)
        × (hop_seqs (trace w start).0 ≡ count 1 (length (trace w start).0))
  unfolding trace
  trace-numbered start = loop-Numbered 24 0 1 start []

  -- A walk that does not reach the destination ends with a hop of kind "drop", or it has used up its
  -- 24 rounds and has a hop for each.
  pub trace-given_up :
      (start : Bytes)
      → (trace w start).1 ≡ false
      → (last_kind (trace w start).0 ≡ text "drop") ⊎ (length (trace w start).0 ≡ 24)
  unfolding trace
  trace-given_up start = loop-GivenUp 24 0 1 start []
