-- ===== src/Bmp/Race.antt =====
-- internal/ingest/bmp.go: `peerState` runs in a goroutine for every connection of bgpd, and holds the
-- lock around the lookup of a distinguisher and around the store of its name, not in between. A step
-- relation: the goroutines take turns.
pub mod Alone
pub mod Overwritten
pub mod Settled
use for_visibility.Prelude.{
  ℕ, ◌≡◌, Bool, true, false, Option, some, none, List, [], ◌∷◌, ◌++◌, ◌==◌, if◌then◌else◌,
}
use for_visibility.Prelude.Assoc.{lookup, insert}
use for_visibility.Text.{Bytes, text, bytes_eq}
use for_visibility.Text.Address.{is_unspecified}
use for_visibility.Gnmi.{Effect, cache_update}
use for_visibility.Vrf.{Kernel, non_default_names}
use for_visibility.Bmp.Peer.{Bmp, PeerHeader, is_empty, per_peer, peer_up_vrf, sole, peer_updates}

-- Where a goroutine stands: in no `peerState`; behind the lookup, which found nothing; with a name
-- that it is about to store; with the network instance under which it files the neighbor.
pub data Stage : Type 0 where
  away : Stage
  unnamed : PeerHeader → Bytes → Bool → Stage
  naming : PeerHeader → Bool → Bytes → Stage
  filing : PeerHeader → Bool → Bytes → Stage

-- What the goroutines share: the ingester, the cache updates so far, and as a ghost the distinguisher
-- and the instance of each neighbor filed so far.
pub record Board : Type 0 where
  pub bmp : Bmp
  pub calls : List Effect
  pub filed : List (Bytes × Bytes)

-- behind `name, ok := b.rdVRF[rd]`
abbrev pub looked_up : Bytes → Bool → PeerHeader → Option Bytes → Stage
looked_up body up h (some name) = filing h up name
looked_up body up h none = unnamed h body up

-- the lookup, for a distinguisher that is not empty
unfoldable pub look_up : Bmp → Bytes → Bool → PeerHeader → Stage
look_up b body up h =
    if is_empty h.rd
    then filing h up (text "default")
    else looked_up body up h (lookup h.rd b.rd_vrf)

-- `if name != "" { … store } else { name = rd }`
unfoldable pub named_or_rd : PeerHeader → Bool → Bytes → Stage
named_or_rd h up name = if is_empty name then filing h up h.rd else naming h up name

-- the name that the message tells, or else that of the only VRF
unfoldable pub choose_name : Kernel → Bmp → PeerHeader → Bool → Bytes → Bmp × Stage
unfolding named_or_rd
choose_name kernel b h up told =
    let (names, resolver) = non_default_names kernel b.vrf in
    if is_empty told
    then (record b { vrf = resolver }, named_or_rd h up (sole names))
    else (b, named_or_rd h up told)

abbrev pub told_name : Bytes → Bool → Bytes
told_name body up = if up then peer_up_vrf body else []

-- One step of a `peerState`. The choice of a name, with the call of NonDefaultNames, is one step.
pub data Act (s : Board) : Stage → Board → Stage → Type 0 where
  skip_short : (body : Bytes) → per_peer body ≡ none → Act s away s away
  skip_unspecified :
      (body : Bytes) (h : PeerHeader)
      → per_peer body ≡ some h
      → is_unspecified h.peer ≡ true
      → Act s away s away
  look :
      (body : Bytes) (up : Bool) (h : PeerHeader)
      → per_peer body ≡ some h
      → is_unspecified h.peer ≡ false
      → Act s away s (look_up s.bmp body up h)
  choose :
      (kernel : Kernel) (h : PeerHeader) (body : Bytes) (up : Bool)
      → Act s
          (unnamed h body up)
          (record s { bmp = (choose_name kernel s.bmp h up (told_name body up)).0 })
          (choose_name kernel s.bmp h up (told_name body up)).1
  store :
      (h : PeerHeader) (up : Bool) (name : Bytes)
      → Act s
          (naming h up name)
          (record s { bmp = record s.bmp { rd_vrf = insert h.rd name s.bmp.rd_vrf } })
          (filing h up name)
  file :
      (h : PeerHeader) (up : Bool) (vrf : Bytes)
      → Act s
          (filing h up vrf)
          (record s {
            calls = s.calls ++ cache_update (text "openconfig") (peer_updates vrf h up) [] ∷ [];
            filed = s.filed ++ (h.rd, vrf) ∷ [];
          })
          away

-- `stage g` is where the goroutine of the connection `g` stands
pub record System : Type 0 where
  pub board : Board
  pub stage : ℕ → Stage

abbrev pub set_stage : ℕ → Stage → (ℕ → Stage) → ℕ → Stage
set_stage g p stage j = if j == g then p else stage j

pub data Step (s : System) : System → Type 0 where
  turn :
      {t : Board} {p : Stage} (g : ℕ)
      → Act s.board (s.stage g) t p
      → Step s (record { board = t; stage = set_stage g p s.stage })

pub data Steps : System → System → Type 0 where
  rest : {s : System} → Steps s s
  steps : {s t u : System} → Step s t → Steps t u → Steps s u

-- the steps of one goroutine that nothing interrupts
pub data Acts : Board → Stage → Board → Stage → Type 0 where
  done : {s : Board} {p : Stage} → Acts s p s p
  acts : {s t u : Board} {p q r : Stage} → Act s p t q → Acts t q u r → Acts s p u r
