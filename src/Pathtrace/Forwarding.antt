-- ===== src/Pathtrace/Forwarding.antt =====
-- What the walk follows: the forwarding of a labelled packet through the tables, as a step relation,
-- and its agreement with a round of `trace`.
use for_visibility.Prelude.{
  ℕ, ◌≡◌, ◌≢◌, ◌↔◌, refl, true, false, ◌&&◌, Bool-cases, inl, inr, List, [], ◌∷◌, ◌++◌,
  if◌then◌else◌, arith,
}
use for_visibility.Text.{Bytes, text, bytes_beq_iff}
use for_visibility.Text.Split.{split_on}
use for_visibility.Exporter.{get_key, is_empty}
use for_visibility.Pathtrace.Lookup.{
  Found, Lfib, no_lfib, all_routes_path, lfib_path, node_of, route_lookup, mpls_lookup,
}
use for_visibility.Pathtrace.{
  Hop, Round, ends, moves, ip_hop, swap_hop, pop_hop, vrf_hop, dest_round, Walk, answer, at_home,
  label_stack, ip_round, mpls_round, round,
}

-- the route of the destination at a node in round `i`
abbrev pub route_at : Walk → ℕ → Bytes → Found
route_at w i node = route_lookup (answer w i node all_routes_path) w.dst

abbrev pub lfib_at : Walk → ℕ → Bytes → Bytes → Lfib
lfib_at w i node top = mpls_lookup (answer w i node (lfib_path top)) no_lfib

abbrev pub home : Walk → Bytes
home w = get_key w.dst w.ip2node

abbrev pub IsRoute : Found → Type 0
IsRoute r = ¬ ((r.nexthop ≡ []) × (r.labels ≡ []) × (r.prefix ≡ []))

-- In round `i` the node `node` sends a packet for the destination with label stack `stack` on to `next`
-- with `stack'`: by a route, a label swap, a pop of the top label, or a pop into a VRF.
pub data Forwards (w : Walk) (i : ℕ) : Bytes → List Bytes → Bytes → List Bytes → Type 0 where
  by_route :
      (node : Bytes)
      → home w ≢ node
      → IsRoute (route_at w i node)
      → Forwards w i node []
          (node_of w.ip2node (route_at w i node).nexthop)
          (label_stack (route_at w i node).labels)
  by_swap :
      (node top : Bytes) (rest : List Bytes)
      → (lfib_at w i node top).out_label ≢ []
      → Forwards w i node
          (top ∷ rest)
          (node_of w.ip2node (lfib_at w i node top).nexthop)
          (split_on 44 (lfib_at w i node top).out_label ++ rest)
  by_pop :
      (node top : Bytes) (rest : List Bytes)
      → (lfib_at w i node top).out_label ≡ []
      → (lfib_at w i node top).nexthop ≢ []
      → Forwards w i node (top ∷ rest) (node_of w.ip2node (lfib_at w i node top).nexthop) rest
  by_vrf :
      (node top : Bytes) (rest : List Bytes)
      → (lfib_at w i node top).out_label ≡ []
      → (lfib_at w i node top).nexthop ≡ []
      → (lfib_at w i node top).iface ≢ []
      → Forwards w i node (top ∷ rest) node rest

is_empty_iff : (s : Bytes) → (is_empty s ≡ true) ↔ (s ≡ [])
is_empty_iff [] = ground arith
is_empty_iff (c ∷ s) = ground arith

is_empty-nil : {s : Bytes} → is_empty s ≡ true → s ≡ []
is_empty-nil {s} e = (is_empty_iff s).0 e

is_empty-ne : {s : Bytes} → is_empty s ≡ false → s ≢ []
is_empty-ne {s} e none = ground (arith, e, none)

-- a round that goes on with this node and stack
abbrev pub Goes : Round → Bytes → ℕ → Bytes → List Bytes → Type 0
Goes r node seq next stack = (h : Hop) × (r ≡ moves h next stack) × (h.node ≡ node) × (h.seq ≡ seq)

module _ (w : Walk) (i seq : ℕ) where
  pub Forwards-round :
      {node next : Bytes} {stack stack' : List Bytes}
      → Forwards w i node stack next stack'
      → Goes (round w i seq node stack) node seq next stack'
  unfolding round ip_round mpls_round
  Forwards-round (by_route node away there) =
      let found = route_at w i node in
      (
        ip_hop seq node found,
        ground (
          arith,
          away,
          there,
          bytes_beq_iff (home w) node,
          is_empty_iff found.nexthop,
          is_empty_iff found.labels,
          is_empty_iff found.prefix,
        ),
        refl,
        refl,
      )
  Forwards-round (by_swap node top rest o) =
      let l = lfib_at w i node top in
      (
        swap_hop seq node top l (split_on 44 l.out_label ++ rest),
        ground (arith, o, is_empty_iff l.out_label),
        refl,
        refl,
      )
  Forwards-round (by_pop node top rest o n) =
      let l = lfib_at w i node top in
      (
        pop_hop seq node top l rest,
        ground (arith, o, n, is_empty_iff l.out_label, is_empty_iff l.nexthop),
        refl,
        refl,
      )
  Forwards-round (by_vrf node top rest o n f) =
      let l = lfib_at w i node top in
      (
        vrf_hop seq node top l,
        ground (
          arith,
          o,
          n,
          f,
          is_empty_iff l.out_label,
          is_empty_iff l.nexthop,
          is_empty_iff l.iface,
        ),
        refl,
        refl,
      )

-- What a round does, by its result.
pub data Seen (w : Walk) (i seq : ℕ) (node : Bytes) : List Bytes → Round → Type 0 where
  seen_home :
      (h : Hop) → home w ≡ node → h.node ≡ node → h.seq ≡ seq → Seen w i seq node [] (ends h true)
  seen_drop :
      (stack : List Bytes) (h : Hop)
      → h.kind ≡ text "drop"
      → h.node ≡ node
      → h.seq ≡ seq
      → Seen w i seq node stack (ends h false)
  seen_move :
      (stack : List Bytes) (h : Hop) (next : Bytes) (stack' : List Bytes)
      → Forwards w i node stack next stack'
      → h.node ≡ node
      → h.seq ≡ seq
      → Seen w i seq node stack (moves h next stack')

module _ (w : Walk) (i seq : ℕ) (node : Bytes) where
  ip_round-Seen :
      home w ≢ node → Seen w i seq node [] (ip_round w.ip2node w.dst seq node (route_at w i node))
  unfolding ip_round
  ip_round-Seen away =
      let r = route_at w i node in
      elim (Bool-cases (is_empty r.nexthop && is_empty r.labels && is_empty r.prefix)) [
        | inl e ↦ rw e (seen_drop _ _ refl refl refl)
        | inr e ↦
            rw e
              (seen_move _ _ _ _ (by_route node away (λ none. ground (arith, e, none))) refl refl)
      ]

  mpls_round-Seen :
      (top : Bytes) (rest : List Bytes)
      → Seen w i seq node
          (top ∷ rest)
          (mpls_round w.ip2node seq node top rest (lfib_at w i node top))
  unfolding mpls_round
  mpls_round-Seen top rest =
      let l = lfib_at w i node top in
      elim (Bool-cases (is_empty l.out_label)) [
        | inl o ↦ elim (Bool-cases (is_empty l.nexthop)) [
          | inl n ↦ elim (Bool-cases (is_empty l.iface)) [
            | inl f ↦ rw (o, n, f) (seen_drop _ _ refl refl refl)
            | inr f ↦
                rw (o, n, f)
                  (seen_move _ _ _ _
                    (by_vrf node top rest (is_empty-nil o) (is_empty-nil n) (is_empty-ne f)) refl
                    refl)
          ]
          | inr n ↦
              rw (o, n)
                (seen_move _ _ _ _ (by_pop node top rest (is_empty-nil o) (is_empty-ne n)) refl
                  refl)
        ]
        | inr o ↦ rw o (seen_move _ _ _ _ (by_swap node top rest (is_empty-ne o)) refl refl)
      ]

  home_round-Seen :
      (r : Round)
      → (home w ≢ node → Seen w i seq node [] r)
      → Seen w i seq node [] (if at_home w.ip2node w.dst node then dest_round w.dst seq node else r)
  home_round-Seen r away = elim (Bool-cases (at_home w.ip2node w.dst node)) [
    | inl e ↦ rw e (seen_home _ ((bytes_beq_iff (home w) node).0 e) refl refl)
    | inr e ↦ rw e (away (λ same. ground (arith, e, same, bytes_beq_iff (home w) node)))
  ]

  pub round-Seen : (stack : List Bytes) → Seen w i seq node stack (round w i seq node stack)
  unfolding round
  round-Seen [] = home_round-Seen _ ip_round-Seen
  round-Seen (top ∷ rest) = mpls_round-Seen top rest

pub home-round :
    (w : Walk) (i seq : ℕ) (node : Bytes)
    → home w ≡ node
    → round w i seq node [] ≡ dest_round w.dst seq node
unfolding round
home-round w i seq node e = rw ((bytes_beq_iff (home w) node).1 e) refl
