-- ===== src/Fpm/Stream.antt =====
-- internal/ingest/fpm.go: the frames of the connection (`handle`, `handleNetlink`).
pub mod Frames
use for_visibility.Prelude.{
  ℕ, zero, suc, ◌-◌, true, false, ◌||◌, List, [], ◌++◌, ltb, ◌==◌, if◌then◌else◌, length, take,
  drop, Run, returns, ◌>>=◌,
}
use for_visibility.Text.{Bytes}
use for_visibility.Wire.{at, be16, le16}
use for_visibility.Gnmi.{Effect}
use for_visibility.Vrf.{Kernel}
use for_visibility.Fpm.Nexthop.{Fpm, handle_nexthop}
use for_visibility.Fpm.Route.{handle_route}

abbrev pub no_effect : Run Fpm → Run (Fpm × List Effect)
no_effect r = r >>= λ f. returns (f, [])

unfoldable pub handle_netlink : Kernel → Fpm → Bytes → Run (Fpm × List Effect)
unfolding handle_nexthop handle_route
handle_netlink kernel f b =
    let kind = le16 b 4 in
    if ltb (length b) 16
    then returns (f, [])
    else if kind == 104
    then no_effect (handle_nexthop f b false)
    else if kind == 105
    then no_effect (handle_nexthop f b true)
    else if kind == 24
    then handle_route kernel f b false
    else if kind == 25
    then handle_route kernel f b true
    else returns (f, [])

-- The loop of `handle` over the bytes that the connection delivers before it ends. `kernel k` is
-- what the kernel answers during the k-th frame. A frame takes four bytes at least, so
-- `length stream` rounds are enough.
unfoldable pub frames : (ℕ → Kernel) → ℕ → ℕ → Fpm → Bytes → Run (Fpm × List Effect)
unfolding handle_netlink
frames kernel zero k f stream = returns (f, [])
frames kernel (suc fuel) k f stream =
    let msg_len = be16 stream 2 in
    let body = take (msg_len - 4) (drop 4 stream) in
    let rest = drop (msg_len - 4) (drop 4 stream) in
    let skip = frames kernel fuel (suc k) f rest in
    let step = handle_netlink (kernel k) f body >>= λ (f', effects).
    frames kernel fuel (suc k) f' rest >>= λ (f'', more). returns (f'', effects ++ more) in
    if ltb (length stream) 4 || ltb msg_len 4 || ltb (length stream) msg_len
    then returns (f, [])
    else if at stream 1 == 1
    then step
    else skip

unfoldable pub handle : (ℕ → Kernel) → Fpm → Bytes → Run (Fpm × List Effect)
unfolding frames
handle kernel f stream = frames kernel (length stream) 0 f stream
