-- ===== src/Bmp/Race/Alone.antt =====
-- A goroutine of a BMP connection that nothing interrupts does what `peer_state` does.
use for_visibility.Prelude.{
  ◌≡◌, sym, ap, ◌∙◌, subst, Bool, some, List, [], ◌∷◌, ◌++◌, append-nil, Option-cases, inl, inr,
  Bool-cases,
}
use for_visibility.Prelude.Assoc.{lookup}
use for_visibility.Text.{Bytes, text, bytes_eq}
use for_visibility.Text.Address.{is_unspecified}
use for_visibility.Gnmi.{Effect, cache_update}
use for_visibility.Vrf.{Kernel, non_default_names}
use for_visibility.Bmp.Peer.{
  Bmp, PeerHeader, is_empty, sole, learn, learn_new, rd_instance, peer_instance, peer_known,
  peer_state, per_peer, peer_updates,
}
use for_visibility.Bmp.Race.{
  away, Board, look_up, named_or_rd, choose_name, told_name, Act, skip_short, skip_unspecified,
  look, choose, store, file, Acts, done, acts,
}

-- the board after one message, as the sequential `b'` and `effects` have it
abbrev pub after_message : Board → Bmp × List Effect → List (Bytes × Bytes) → Board
after_message s (b, effects) filed = record {
  bmp = b;
  calls = s.calls ++ effects;
  filed = s.filed ++ filed;
}

-- what is left to do once the instance is known
abbrev pub filed_as : Board → Bmp × Bytes → PeerHeader → Bool → Board
filed_as s (b, vrf) h up =
    after_message s (b, cache_update (text "openconfig") (peer_updates vrf h up) [] ∷ [])
      ((h.rd, vrf) ∷ [])

learn-Acts :
    (s : Board) (h : PeerHeader) (up : Bool) (name : Bytes)
    → Acts s (named_or_rd h up name) (filed_as s (learn s.bmp h.rd name) h up) away
unfolding learn named_or_rd
learn-Acts s h up [] = acts (file h up h.rd) done
learn-Acts s h up (c ∷ name) = acts (store h up (c ∷ name)) (acts (file h up (c ∷ name)) done)

learn_new-Acts :
    (s : Board) (kernel : Kernel) (h : PeerHeader) (up : Bool) (told : Bytes)
    → Acts
        (record s { bmp = (choose_name kernel s.bmp h up told).0 })
        (choose_name kernel s.bmp h up told).1
        (filed_as s (learn_new kernel s.bmp h.rd told) h up)
        away
unfolding learn_new choose_name
learn_new-Acts s kernel h up [] =
    learn-Acts (record s { bmp = record s.bmp { vrf = (non_default_names kernel s.bmp.vrf).1 } }) h
      up (sole (non_default_names kernel s.bmp.vrf).0)
learn_new-Acts s kernel h up (c ∷ told) = learn-Acts s h up (c ∷ told)

instance-Acts :
    (s : Board) (kernel : Kernel) (h : PeerHeader) (body : Bytes) (up : Bool)
    → Acts s
        (look_up s.bmp body up h)
        (filed_as s (peer_instance kernel s.bmp h.rd body up) h up)
        away
unfolding look_up peer_instance text peer_updates rd_instance learn_new
instance-Acts s kernel h body up = elim (Bool-cases (is_empty h.rd)) [
  | inl e ↦ rw (look_up, peer_instance, e) (acts (file h up (text "default")) done)
  | inr e ↦
      rw (look_up, peer_instance, e)
        (elim (Option-cases (lookup h.rd s.bmp.rd_vrf)) [
          | inl unknown ↦
              rw (rd_instance, unknown)
                (acts (choose kernel h body up) (learn_new-Acts s kernel h up (told_name body up)))
          | inr (name, known) ↦ rw (rd_instance, known) (acts (file h up name) done)
        ])
]

skipped : (s : Board) → after_message s (s.bmp, []) [] ≡ s
skipped s =
    ap (λ calls. record s { calls = calls; filed = s.filed ++ [] }) (append-nil s.calls)
    ∙ ap (λ filed. record s { filed = filed }) (append-nil s.filed)

abbrev pub HasActs : Board → Bmp × List Effect → Type 0
HasActs s r = (filed : List (Bytes × Bytes)) × Acts s away (after_message s r filed) away

skip-HasActs : (s : Board) → Act s away s away → HasActs s (s.bmp, [])
skip-HasActs s skip = ([], subst (λ t. Acts s away t away) (sym (skipped s)) (acts skip done))

known-HasActs :
    (s : Board) (kernel : Kernel) (body : Bytes) (up : Bool) (h : PeerHeader)
    → per_peer body ≡ some h
    → HasActs s (peer_known kernel s.bmp body up h)
known-HasActs s kernel body up h e =
    unfold peer_known in
    elim (Bool-cases (is_unspecified h.peer)) [
      | inl bare ↦ rw (bare) (skip-HasActs s (skip_unspecified body h e bare))
      | inr real ↦ rw (real) (
        (h.rd, (peer_instance kernel s.bmp h.rd body up).1) ∷ [],
        acts (look body up h e real) (instance-Acts s kernel h body up),
      )
    ]

-- Steps of one goroutine in a row, from before the message to behind it, have the cache updates and
-- the state of the sequential function.
pub Acts-peer_state :
    (s : Board) (kernel : Kernel) (body : Bytes) (up : Bool)
    → HasActs s (peer_state kernel s.bmp body up)
unfolding peer_state
Acts-peer_state s kernel body up = elim (Option-cases (per_peer body)) [
  | inl e ↦ rw (peer_state, e) (skip-HasActs s (skip_short body e))
  | inr (h, e) ↦ rw (peer_state, e) (known-HasActs s kernel body up h e)
]
