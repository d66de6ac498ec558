-- ===== src/Bmp/Peer/Moved.antt =====
-- internal/ingest/bmp.go: a session whose Peer Up and Peer Down are filed under different network
-- instances (`peerState`).
use for_visibility.Prelude.{
  ℕ, suc, ◌≡◌, refl, ap, ◌∙◌, Bool, true, false, not, ◌&&◌, ◌==◌, Option, some, none, List, [], ◌∷◌,
  ◌++◌, if-cases, arith,
}
use for_visibility.Prelude.Assoc.{lookup}
use for_visibility.Text.{Bytes, text, bytes_beq, bytes_eq}
use for_visibility.Text.Address.{ip_string, is_unspecified}
use for_visibility.Text.Decimal.{itoa}
use for_visibility.Gnmi.{
  PathElem, TypedValue, string_val, Update, Notification, leaf_update, Effect, cache_update,
}
use for_visibility.Gnmi.Paths.{plain, keyed, keyed2, neighbor_elems}
use for_visibility.Gnmi.Match.{elems_beq, elem_beq, key_beq, elems_beq-append, written}
use for_visibility.Cache.{GnmiCache, run_effects}
use for_visibility.Vrf.{Kernel, non_default_names}
use for_visibility.Bmp.Peer.{
  Bmp, PeerHeader, is_empty, per_peer, peer_up_vrf, sole, learn, learn_new, rd_instance,
  peer_instance, peer_updates, peer_known, peer_state,
}

-- the leaf with the state of a session
abbrev pub session_leaf : Bytes → PeerHeader → List PathElem
session_leaf vrf h = neighbor_elems vrf (ip_string h.peer) (text "session-state")

-- the elements in front of the leaf
abbrev neighbor_base : Bytes → Bytes → List PathElem
neighbor_base vrf peer =
    plain (text "network-instances")
    ∷ keyed (text "network-instance") (text "name") vrf
    ∷ plain (text "protocols")
    ∷ keyed2 (text "protocol") (text "identifier") (text "BGP") (text "name") (text "bgp")
    ∷ plain (text "bgp")
    ∷ plain (text "neighbors")
    ∷ keyed (text "neighbor") (text "neighbor-address") peer
    ∷ plain (text "state")
    ∷ []

same_leaf :
    (vrf peer : Bytes)
    → elems_beq
        (neighbor_elems vrf peer (text "session-state"))
        (neighbor_elems vrf peer (text "session-state"))
      ≡ true
unfolding neighbor_elems elems_beq elem_beq key_beq text bytes_beq
same_leaf vrf peer =
    elems_beq-append (neighbor_base vrf peer) (plain (text "session-state") ∷ [])
      (plain (text "session-state") ∷ [])

as_leaf :
    (vrf peer : Bytes)
    → elems_beq
        (neighbor_elems vrf peer (text "peer-as"))
        (neighbor_elems vrf peer (text "session-state"))
      ≡ false
unfolding neighbor_elems elems_beq elem_beq key_beq text bytes_beq
as_leaf vrf peer =
    elems_beq-append (neighbor_base vrf peer) (plain (text "peer-as") ∷ [])
      (plain (text "session-state") ∷ [])

other_vrf :
    (v w peer peer' leaf leaf' : Bytes)
    → bytes_beq v w ≡ false
    → elems_beq (neighbor_elems v peer leaf) (neighbor_elems w peer' leaf') ≡ false
unfolding neighbor_elems elems_beq elem_beq key_beq text bytes_beq
other_vrf v w peer peer' leaf leaf' differ = rw differ refl

written-up :
    (vrf : Bytes) (h : PeerHeader) (old : Option TypedValue)
    → written (peer_updates vrf h true) (session_leaf vrf h) old
      ≡ some (string_val (text "ESTABLISHED"))
unfolding written peer_updates
written-up vrf h old =
    if-cases
      (λ (ups : List Update).
        written ups (session_leaf vrf h) old ≡ some (string_val (text "ESTABLISHED")))
      (not (h.peer_as == 0))
      (leaf_update (session_leaf vrf h) (text "ESTABLISHED")
        ∷ leaf_update (neighbor_elems vrf (ip_string h.peer) (text "peer-as")) (itoa h.peer_as)
        ∷ [])
      (leaf_update (session_leaf vrf h) (text "ESTABLISHED") ∷ [])
      (λ _. rw (same_leaf vrf (ip_string h.peer), as_leaf vrf (ip_string h.peer)) refl)
      (λ _. rw (same_leaf vrf (ip_string h.peer)) refl)

written-down :
    (vrf : Bytes) (h : PeerHeader) (old : Option TypedValue)
    → written (peer_updates vrf h false) (session_leaf vrf h) old ≡ some (string_val (text "IDLE"))
unfolding written peer_updates
written-down vrf h old = rw (same_leaf vrf (ip_string h.peer)) refl

written-elsewhere :
    (v w : Bytes) (h h' : PeerHeader) (old : Option TypedValue)
    → bytes_beq v w ≡ false
    → written (peer_updates v h false) (session_leaf w h') old ≡ old
unfolding written peer_updates
written-elsewhere v w h h' old differ =
    rw
      (other_vrf v w (ip_string h.peer) (ip_string h'.peer) (text "session-state")
        (text "session-state") differ)
      refl

&&-true : (a b : Bool) → a && b ≡ true → (a ≡ true) × (b ≡ true)
&&-true a b h = ground arith

-- A Peer Up and a later Peer Down of one neighbor, whose distinguisher has no name before. The Peer Up
-- tells no name and does not find exactly one VRF device; at the Peer Down exactly one, `n`, is there.
pub record IsUnlearned (kernel kernel' : Kernel) (b : Bmp) (h h' : PeerHeader)
    (body body' n : Bytes) : Type 0 where
  pub up_header : per_peer body ≡ some h
  pub down_header : per_peer body' ≡ some h'
  pub same_peer : h'.peer ≡ h.peer
  pub same_rd : h'.rd ≡ h.rd
  pub real : is_unspecified h.peer ≡ false
  pub distinguished : is_empty h.rd ≡ false
  pub unknown : lookup h.rd b.rd_vrf ≡ none
  pub silent : peer_up_vrf body ≡ []
  pub not_one : sole (non_default_names kernel b.vrf).0 ≡ []
  pub one : (non_default_names kernel' (non_default_names kernel b.vrf).1).0 ≡ n ∷ []
  pub named : is_empty n ≡ false
  pub another : bytes_beq n h.rd ≡ false

-- what the two messages do to the cache
abbrev pub two_effects : Kernel → Kernel → Bmp → Bytes → Bytes → List Effect
two_effects kernel kernel' b body body' =
    (peer_state kernel b body true).1
    ++ (peer_state kernel' (peer_state kernel b body true).0 body' false).1

module _ (kernel kernel' : Kernel) (b : Bmp) (h h' : PeerHeader) (body body' n : Bytes)
    (u : IsUnlearned kernel kernel' b h h' body body' n) where
  up_state : peer_state kernel b body true ≡ (
    record b { vrf = (non_default_names kernel b.vrf).1 },
    cache_update (text "openconfig") (peer_updates h.rd h true) [] ∷ [],
  )
  unfolding peer_state peer_known peer_instance rd_instance learn_new learn
  up_state = ground (arith, u.up_header, u.real, u.distinguished, u.unknown, u.silent, u.not_one)

  down_state :
      (peer_state kernel' (record b { vrf = (non_default_names kernel b.vrf).1 }) body' false).1
      ≡ cache_update (text "openconfig") (peer_updates n h' false) [] ∷ []
  unfolding peer_state peer_known peer_instance rd_instance learn_new learn
  down_state = ground (
    arith, u.down_header, u.same_peer, u.same_rd, u.real, u.distinguished, u.unknown, u.one,
    u.named,
  )

  both :
      two_effects kernel kernel' b body body'
      ≡ cache_update (text "openconfig") (peer_updates h.rd h true) []
        ∷ cache_update (text "openconfig") (peer_updates n h' false) []
        ∷ []
  both = rw (up_state, down_state) refl

  same_leaves : session_leaf n h' ≡ session_leaf n h
  same_leaves = ap (λ peer. neighbor_elems n (ip_string peer) (text "session-state")) u.same_peer

-- the notification of one call of `Update`
abbrev note : Bytes → ℕ → List Update → Notification
note target now ups = record {
  timestamp = now;
  prefix = record { target = target; origin = text "openconfig"; elem = [] };
  update = ups;
  delete = [];
}

-- A Peer Up tells no VRF name and does not find exactly one VRF device, and its distinguisher has no
-- name yet: it is filed under the distinguisher. The Peer Down of the same neighbor, if it finds exactly
-- one device, is filed under the device's name. When the cache has accepted both, the session is IDLE
-- there, and the entry of the Peer Up still says ESTABLISHED.
pub peer_state-moves :
    (g : GnmiCache) (target : Bytes) (clock : ℕ → ℕ) (k : ℕ) (t : g.Tree) (kernel kernel' : Kernel)
    (b : Bmp) (h h' : PeerHeader) (body body' n : Bytes)
    → IsUnlearned kernel kernel' b h h' body body' n
    → (run_effects g target clock k (two_effects kernel kernel' b body body') t).1 ≡ true
    → (g.leaf
          (run_effects g target clock k (two_effects kernel kernel' b body body') t).0
          target
          (text "openconfig")
          (session_leaf h.rd h)
        ≡ some (string_val (text "ESTABLISHED")))
      × (g.leaf
            (run_effects g target clock k (two_effects kernel kernel' b body body') t).0
            target
            (text "openconfig")
            (session_leaf n h)
          ≡ some (string_val (text "IDLE")))
peer_state-moves g target clock k t kernel kernel' b h h' body body' n u =
    unfold run_effects in
    rw
      (
        both kernel kernel' b h h' body body' n u,
        ← same_leaves kernel kernel' b h h' body body' n u,
      )
      λ fine.
        let oks = &&-true _ _ fine in
        let up = note target (clock k) (peer_updates h.rd h true) in
        let down = note target (clock (suc k)) (peer_updates n h' false) in
        let law = λ (e : List PathElem).
          g.leaf-update down (g.gnmi_update up t).0 e refl refl (&&-true _ _ oks.1).0 in
        let first = λ (e : List PathElem). g.leaf-update up t e refl refl oks.0 in
        (
          law (session_leaf h.rd h)
              ∙ written-elsewhere n h.rd h' h _ u.another
              ∙ first (session_leaf h.rd h)
              ∙ written-up h.rd h _,
          law (session_leaf n h') ∙ written-down n h' _,
        )
