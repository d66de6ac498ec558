-- ===== src/Examples/Peers.antt =====
-- Peer messages of several BMP connections.
use for_visibility.Prelude.{ℕ, ◌≡◌, refl, true, false, some, [], ◌∷◌, ◌++◌, arith}
use for_visibility.Prelude.Assoc.{lookup, insert}
use for_visibility.Text.{Bytes, text, bytes_eq, bytes_beq}
use for_visibility.Text.Decimal.{itoa}
use for_visibility.Text.Address.{is_unspecified}
use for_visibility.Vrf.{Kernel, vrf, non_default_names}
use for_visibility.Bmp.Peer.{
  Bmp, PeerHeader, peer_known, peer_state, per_peer, peer_up_vrf, peer_updates,
}
use for_visibility.Bmp.Peer.Moved.{session_leaf, IsUnlearned, two_effects, peer_state-moves}
use for_visibility.Gnmi.{string_val, cache_update}
use for_visibility.Cache.{run_effects}
use for_visibility.Examples.Memory.{Leaves, memory, no_leaves, ticking}
use for_visibility.Bmp.Race.{
  away, Board, look_up, look, file, System, set_stage, turn, Steps, rest, steps,
}
use for_visibility.Bmp.Race.Settled.{IsSettled, Steps-IsSettled}
use for_visibility.Bmp.Race.Overwritten.{quiet, Steps-overwritten}

-- 65000:1, 10.0.0.2, AS 65001
abbrev header_bytes : ℕ → Bytes
header_bytes last =
    1 ∷ 0 ∷ 0 ∷ 0 ∷ 253 ∷ 232 ∷ 0 ∷ 0 ∷ 0 ∷ 1 ∷ 0 ∷ 0 ∷ 0 ∷ 0 ∷ 0 ∷ 0 ∷ 0 ∷ 0 ∷ 0 ∷ 0 ∷ 0 ∷ 0 ∷ 10
    ∷ 0 ∷ 0 ∷ last ∷ 0 ∷ 0 ∷ 253 ∷ 233 ∷ 1 ∷ 1 ∷ 1 ∷ 1 ∷ 0 ∷ 0 ∷ 0 ∷ 0 ∷ 0 ∷ 0 ∷ 0 ∷ 0 ∷ []

-- the header of an OPEN without anything behind it
abbrev open_bytes : Bytes
open_bytes =
    255 ∷ 255 ∷ 255 ∷ 255 ∷ 255 ∷ 255 ∷ 255 ∷ 255 ∷ 255 ∷ 255 ∷ 255 ∷ 255 ∷ 255 ∷ 255 ∷ 255 ∷ 255
    ∷ 0 ∷ 19 ∷ 1 ∷ []

abbrev ports_bytes : Bytes
ports_bytes =
    0 ∷ 0 ∷ 0 ∷ 0 ∷ 0 ∷ 0 ∷ 0 ∷ 0 ∷ 0 ∷ 0 ∷ 0 ∷ 0 ∷ 10 ∷ 0 ∷ 0 ∷ 1 ∷ 0 ∷ 179 ∷ 0 ∷ 179 ∷ []

-- with the VRF name "cust", and without one
abbrev told_bytes : Bytes
told_bytes =
    header_bytes 2
    ++ (ports_bytes ++ (open_bytes ++ (open_bytes ++ 0 ∷ 3 ∷ 0 ∷ 4 ∷ 99 ∷ 117 ∷ 115 ∷ 116 ∷ [])))

abbrev silent_bytes : Bytes
silent_bytes = header_bytes 3 ++ (ports_bytes ++ (open_bytes ++ open_bytes))

abbrev header_of : ℕ → PeerHeader
header_of last = record {
  peer = 10 ∷ 0 ∷ 0 ∷ last ∷ [];
  peer_as = 65001;
  ptype = 1;
  rd = text "65000:1";
}

abbrev fresh : Board
fresh = record { bmp = record { rd_vrf = []; vrf = [] }; calls = []; filed = [] }

abbrev blue_vrf : Kernel
blue_vrf = some (vrf 20 (text "blue") ∷ [])

Steps-overwritten_example :
    (t : System) × Steps (quiet fresh) t
    × ((g : ℕ) → t.stage g ≡ away)
    × (t.board.filed ≡ (text "65000:1", text "cust") ∷ (text "65000:1", text "blue") ∷ [])
    × (lookup (text "65000:1") t.board.bmp.rd_vrf ≡ some (text "blue"))
unfolding per_peer text itoa is_unspecified lookup peer_up_vrf non_default_names insert
Steps-overwritten_example =
    Steps-overwritten fresh blue_vrf told_bytes silent_bytes (header_of 2) (header_of 3) 99 98
      (text "ust") (text "lue") (record { header = refl; real = refl; distinguished = refl })
      (record { header = refl; real = refl; distinguished = refl }) refl refl refl refl refl

-- the name is known, and a goroutine handles a Peer Down
abbrev named_board : Board
named_board = record fresh {
  bmp = record { rd_vrf = (text "65000:1", text "cust") ∷ []; vrf = [] };
}

abbrev downed : System
downed = record {
  board = record named_board {
    calls =
        cache_update (text "openconfig") (peer_updates (text "cust") (header_of 2) false) [] ∷ [];
    filed = (text "65000:1", text "cust") ∷ [];
  };
  stage = set_stage 7 away (
      set_stage 7 (look_up named_board.bmp told_bytes false (header_of 2))
        (quiet named_board).stage);
}

Steps-downed : Steps (quiet named_board) downed
unfolding per_peer text itoa is_unspecified look_up lookup bytes_beq
Steps-downed =
    steps (turn 7 (look told_bytes false (header_of 2) refl refl))
      (steps (turn 7 (file (header_of 2) false (text "cust"))) rest)

Steps-IsSettled_example : IsSettled (text "65000:1") (text "cust") downed
unfolding text lookup bytes_beq
Steps-IsSettled_example =
    Steps-IsSettled (text "65000:1") (text "cust") (ground arith)
      (record { learned = refl; follows = λ g. tt; under = tt }) Steps-downed

-- The VRF device appears between the Peer Up and the Peer Down.
abbrev no_names : Bmp
no_names = record { rd_vrf = []; vrf = [] }

late_vrf :
    IsUnlearned
      (some [])
      blue_vrf
      no_names
      (header_of 3)
      (header_of 3)
      silent_bytes
      (header_bytes 3)
      (text "blue")
unfolding per_peer text itoa is_unspecified lookup peer_up_vrf non_default_names insert bytes_beq
late_vrf = record {
  up_header = refl;
  down_header = refl;
  same_peer = refl;
  same_rd = refl;
  real = refl;
  distinguished = refl;
  unknown = refl;
  silent = refl;
  not_one = refl;
  one = refl;
  named = refl;
  another = refl;
}

abbrev after_both : Leaves
after_both =
    (run_effects memory (text "r1") ticking 0
      (two_effects (some []) blue_vrf no_names silent_bytes (header_bytes 3)) no_leaves).0

both_accepted :
    (run_effects memory
      (text "r1")
      ticking
      0
      (two_effects (some []) blue_vrf no_names silent_bytes (header_bytes 3))
      no_leaves).1
    ≡ true
unfolding run_effects peer_state peer_known is_unspecified
both_accepted = refl

peer_state-moves_example :
    (after_both (text "r1") (text "openconfig") (session_leaf (text "65000:1") (header_of 3))
      ≡ some (string_val (text "ESTABLISHED")))
    × (after_both (text "r1") (text "openconfig") (session_leaf (text "blue") (header_of 3))
        ≡ some (string_val (text "IDLE")))
peer_state-moves_example =
    peer_state-moves memory (text "r1") ticking 0 no_leaves (some []) blue_vrf no_names
      (header_of 3) (header_of 3) silent_bytes (header_bytes 3) (text "blue") late_vrf both_accepted
