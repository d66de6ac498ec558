-- ===== src/Bmp/Stream.antt =====
-- internal/ingest/bmp.go: the messages of the connection (`handle`).
pub mod Messages
use for_visibility.Prelude.{
  ℕ, zero, suc, ◌-◌, Bool, true, false, not, ◌||◌, List, [], ◌++◌, ltb, ◌==◌, if◌then◌else◌, length,
  take, drop, Run, returns, ◌>>=◌,
}
use for_visibility.Text.{Bytes}
use for_visibility.Wire.{at, be32}
use for_visibility.Gnmi.{Effect}
use for_visibility.Vrf.{Kernel}
use for_visibility.Bmp.Peer.{Bmp, peer_state}
use for_visibility.Bmp.Update.{route_mon}

-- the switch on the message type
unfoldable pub handle_message : Kernel → Bmp → ℕ → Bytes → Run (Bmp × List Effect)
unfolding peer_state route_mon
handle_message kernel b kind body =
    if kind == 3
    then returns (peer_state kernel b body true)
    else if kind == 2
    then returns (peer_state kernel b body false)
    else if kind == 0
    then (route_mon body >>= λ effects. returns (b, effects))
    else returns (b, [])

-- The loop over the bytes that the connection delivers before it ends. A message takes six bytes at
-- least, so `length stream` rounds are enough.
unfoldable pub messages : (ℕ → Kernel) → ℕ → ℕ → Bmp → Bytes → Run (Bmp × List Effect)
unfolding handle_message
messages kernel zero k b stream = returns (b, [])
messages kernel (suc fuel) k b stream =
    let msg_len = be32 stream 1 in
    let body = take (msg_len - 6) (drop 6 stream) in
    let rest = drop (msg_len - 6) (drop 6 stream) in
    let step = handle_message (kernel k) b (at stream 5) body >>= λ (b', effects).
    messages kernel fuel (suc k) b' rest >>= λ (b'', more). returns (b'', effects ++ more) in
    if ltb (length stream) 6 || not (at stream 0 == 3)
    then returns (b, [])
    else if ltb msg_len 6 || ltb (length stream) msg_len
    then returns (b, [])
    else step

unfoldable pub handle : (ℕ → Kernel) → Bmp → Bytes → Run (Bmp × List Effect)
unfolding messages
handle kernel b stream = messages kernel (length stream) 0 b stream
