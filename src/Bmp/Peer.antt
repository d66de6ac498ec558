-- ===== src/Bmp/Peer.antt =====
-- internal/ingest/bmp.go: Peer Up and Peer Down (`perPeer`, `peerState`, `peerUpVRF`).
pub mod Learned
pub mod Moved
use for_visibility.Prelude.{
  ℕ, zero, suc, ◌+◌, ◌-◌, ◌/◌, ◌%◌, Bool, true, false, not, ◌&&◌, ◌||◌, Option, none, some, List,
  [], ◌∷◌, ◌++◌, ltb, ◌==◌, if◌then◌else◌, length, take, drop,
}
use for_visibility.Prelude.Assoc.{Map, lookup, insert}
use for_visibility.Text.{Bytes, text, bytes_eq}
use for_visibility.Text.Decimal.{itoa}
use for_visibility.Text.Address.{Ip, ip_string, all_zero, is_unspecified}
use for_visibility.Wire.{at, slice, be16, be32}
use for_visibility.Gnmi.{Update, Effect, cache_update, leaf_update}
use for_visibility.Gnmi.Paths.{neighbor_elems}
use for_visibility.Vrf.{Kernel, Resolver, non_default_names}
use for_visibility.Bmp.Nlri.{format_rd}

pub record Bmp : Type 0 where
  pub rd_vrf : Map Bytes Bytes
  pub vrf : Resolver

pub record PeerHeader : Type 0 where
  pub peer : Ip
  pub peer_as : ℕ
  pub ptype : ℕ
  pub rd : Bytes

abbrev pub is_empty : Bytes → Bool
is_empty [] = true
is_empty (x ∷ xs) = false

-- bit 0x80 of the flags is the V flag
unfoldable pub per_peer : Bytes → Option PeerHeader
unfolding all_zero format_rd
per_peer body =
    let rd_bytes = slice 2 10 body in
    if ltb (length body) 42
    then none
    else some (record {
      peer = if at body 1 / 128 % 2 == 1 then slice 10 26 body else slice 22 26 body;
      peer_as = be32 body 26;
      ptype = at body 0;
      rd = if all_zero rd_bytes then [] else format_rd rd_bytes;
    })

-- One of the two OPEN messages is skipped; `none` is the early return.
unfoldable pub skip_open : Bytes → Option Bytes
skip_open p =
    let l = be16 p 16 in
    if ltb (length p) 19
    then none
    else if ltb l 19 || ltb (length p) l
    then none
    else some (drop l p)

-- The Information TLVs; each takes four bytes at least.
tlv_name : ℕ → Bytes → Bytes
tlv_name zero p = []
tlv_name (suc fuel) p =
    let l = be16 p 2 in
    let rest = tlv_name fuel (drop (4 + l) p) in
    if ltb (length p) 4 || ltb (length p) (4 + l)
    then []
    else if be16 p 0 == 3
    then slice 4 (4 + l) p
    else rest

abbrev pub open_tlvs : Option Bytes → Bytes
unfolding tlv_name
open_tlvs none = []
open_tlvs (some p) = tlv_name (length p) p

abbrev pub second_open : Option Bytes → Option Bytes
unfolding skip_open
second_open none = none
second_open (some p) = skip_open p

-- 42 bytes of header, 20 of addresses and ports, two OPENs, then the TLVs; "" if there is no name
unfoldable pub peer_up_vrf : Bytes → Bytes
unfolding skip_open tlv_name
peer_up_vrf body =
    if ltb (length body) 42 || ltb (length (drop 42 body)) 20
    then []
    else open_tlvs (second_open (skip_open (drop 20 (drop 42 body))))

-- the only name of a list of one
abbrev pub sole : List Bytes → Bytes
sole (n ∷ []) = n
sole _ = []

-- a name for an RD that is not in the map yet: the map after it, and the name
unfoldable pub learn : Bmp → Bytes → Bytes → Bmp × Bytes
learn b rd name =
    if is_empty name then (b, rd) else (record b { rd_vrf = insert rd name b.rd_vrf }, name)

-- the name that the message told, if any, or else the only VRF's
unfoldable pub learn_new : Kernel → Bmp → Bytes → Bytes → Bmp × Bytes
unfolding learn
learn_new kernel b rd told =
    let (names, resolver) = non_default_names kernel b.vrf in
    if is_empty told then learn (record b { vrf = resolver }) rd (sole names) else learn b rd told

-- the VRF of a peer whose RD is not empty
unfoldable pub rd_instance : Kernel → Bmp → Bytes → Bytes → Bool → Bmp × Bytes
rd_instance kernel b rd body up = elim (lookup rd b.rd_vrf) [
  | some name ↦ (b, name)
  | none ↦ learn_new kernel b rd (if up then peer_up_vrf body else [])
]

unfoldable pub peer_instance : Kernel → Bmp → Bytes → Bytes → Bool → Bmp × Bytes
peer_instance kernel b rd body up =
    if is_empty rd then (b, text "default") else rd_instance kernel b rd body up

unfoldable pub peer_updates : Bytes → PeerHeader → Bool → List Update
peer_updates vrf h up =
    let state = if up then text "ESTABLISHED" else text "IDLE" in
    let session =
      leaf_update (neighbor_elems vrf (ip_string h.peer) (text "session-state")) state in
    let as_number =
      leaf_update (neighbor_elems vrf (ip_string h.peer) (text "peer-as")) (itoa h.peer_as) in
    if up && not (h.peer_as == 0) then session ∷ as_number ∷ [] else session ∷ []

-- the part of `peerState` behind the header: the Loc-RIB peer is skipped
unfoldable pub peer_known : Kernel → Bmp → Bytes → Bool → PeerHeader → Bmp × List Effect
peer_known kernel b body up h =
    let (b', vrf) = peer_instance kernel b h.rd body up in
    if is_unspecified h.peer
    then (b, [])
    else (b', cache_update (text "openconfig") (peer_updates vrf h up) [] ∷ [])

unfoldable pub peer_state : Kernel → Bmp → Bytes → Bool → Bmp × List Effect
unfolding per_peer peer_known
peer_state kernel b body up = elim (per_peer body) [
  | none ↦ (b, [])
  | some h ↦ peer_known kernel b body up h
]
