-- ===== src/Bmp/Race/Overwritten.antt =====
-- Two goroutines of BMP connections that overlap in `peerState` can change the name of a distinguisher.
use for_visibility.Prelude.{
  ℕ, ◌≡◌, refl, sym, ap, ◌∙◌, subst, true, false, some, none, [], ◌∷◌, ◌++◌, append_assoc, arith,
}
use for_visibility.Prelude.Assoc.{lookup, insert, lookup-insert_self}
use for_visibility.Text.{Bytes, bytes_eq}
use for_visibility.Text.Address.{is_unspecified}
use for_visibility.Vrf.{Kernel, non_default_names}
use for_visibility.Bmp.Peer.{Bmp, PeerHeader, is_empty, sole, per_peer, peer_up_vrf}
use for_visibility.Bmp.Race.{
  Stage, away, unnamed, naming, Board, look_up, named_or_rd, choose_name, Act, look, choose, store,
  file, System, turn, Steps, rest, steps,
}

-- A Peer Up of a real neighbor in a VRF.
pub record IsPeerUp (body : Bytes) (h : PeerHeader) : Type 0 where
  pub header : per_peer body ≡ some h
  pub real : is_unspecified h.peer ≡ false
  pub distinguished : is_empty h.rd ≡ false

look-unnamed :
    (s : Board) (body : Bytes) (h : PeerHeader)
    → IsPeerUp body h
    → lookup h.rd s.bmp.rd_vrf ≡ none
    → Act s away s (unnamed h body true)
unfolding look_up
look-unnamed s body h v unknown =
    subst (Act s away s) (rw (look_up, v.distinguished, unknown) refl)
      (look body true h v.header v.real)

choose-told :
    (s : Board) (kernel : Kernel) (body : Bytes) (h : PeerHeader) (c : ℕ) (n : Bytes)
    → peer_up_vrf body ≡ c ∷ n
    → Act s (unnamed h body true) s (naming h true (c ∷ n))
choose-told s kernel body h c n told =
    subst (λ (r : Bmp × Stage). Act s (unnamed h body true) (record s { bmp = r.0 }) r.1)
      (ap (choose_name kernel s.bmp h true) told ∙ unfold choose_name in refl)
      (choose kernel h body true)

choose-sole :
    (s : Board) (kernel : Kernel) (body : Bytes) (h : PeerHeader) (c : ℕ) (n : Bytes)
    → peer_up_vrf body ≡ []
    → sole (non_default_names kernel s.bmp.vrf).0 ≡ c ∷ n
    → Act s
        (unnamed h body true)
        (record s { bmp = record s.bmp { vrf = (non_default_names kernel s.bmp.vrf).1 } })
        (naming h true (c ∷ n))
unfolding named_or_rd
choose-sole s kernel body h c n silent alone =
    subst (λ (r : Bmp × Stage). Act s (unnamed h body true) (record s { bmp = r.0 }) r.1)
      (ap (choose_name kernel s.bmp h true) silent
        ∙ (unfold choose_name in
            ap
              (λ name. (
                record s.bmp { vrf = (non_default_names kernel s.bmp.vrf).1 },
                named_or_rd h true name,
              ))
              alone))
      (choose kernel h body true)

abbrev pub quiet : Board → System
quiet s = record { board = s; stage = λ _. away }

-- Two connections get a Peer Up of one distinguisher that has no name yet. One of the messages tells
-- a name, the other one does not and only one VRF is there. There is an order of the steps after
-- which the first name is stored and filed, and then overwritten by that of the VRF, under which the
-- second neighbor is filed; no message is left.
pub Steps-overwritten :
    (s : Board) (kernel : Kernel) (body body' : Bytes) (h h' : PeerHeader) (c d : ℕ) (n m : Bytes)
    → IsPeerUp body h
    → IsPeerUp body' h'
    → h'.rd ≡ h.rd
    → lookup h.rd s.bmp.rd_vrf ≡ none
    → peer_up_vrf body ≡ c ∷ n
    → peer_up_vrf body' ≡ []
    → sole (non_default_names kernel s.bmp.vrf).0 ≡ d ∷ m
    → (t : System) × Steps (quiet s) t
      × ((g : ℕ) → t.stage g ≡ away)
      × (t.board.filed ≡ s.filed ++ (h.rd, c ∷ n) ∷ (h.rd, d ∷ m) ∷ [])
      × (lookup h.rd t.board.bmp.rd_vrf ≡ some (d ∷ m))
Steps-overwritten s kernel body body' h h' c d n m v v' same unknown told silent alone = (
  _,
  steps (turn 0 (look-unnamed s body h v unknown)) (
      steps (turn 1 (look-unnamed s body' h' v' (ap (λ r. lookup r s.bmp.rd_vrf) same ∙ unknown))) (
        steps (turn 1 (choose-sole s kernel body' h' d m silent alone)) (
          steps (turn 0 (choose-told _ kernel body h c n told)) (
            steps (turn 0 (store h true (c ∷ n))) (
              steps (turn 0 (file h true (c ∷ n))) (
                steps (turn 1 (store h' true (d ∷ m)))
                  (steps (turn 1 (file h' true (d ∷ m))) rest))))))),
  λ g. ground arith,
  append_assoc s.filed ((h.rd, c ∷ n) ∷ []) ((h'.rd, d ∷ m) ∷ [])
      ∙ ap (λ r. s.filed ++ (h.rd, c ∷ n) ∷ (r, d ∷ m) ∷ []) same,
  ap (λ r. lookup r (insert h'.rd (d ∷ m) (insert h.rd (c ∷ n) s.bmp.rd_vrf))) (sym same)
      ∙ lookup-insert_self h'.rd (d ∷ m) (insert h.rd (c ∷ n) s.bmp.rd_vrf),
)
