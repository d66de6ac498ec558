-- ===== src/Fpm/Stream/Frames.antt =====
-- The frames of a connection are handled one by one, in order.
use for_visibility.Prelude.{
  ℕ, zero, suc, ◌+◌, ◌-◌, ◌≤◌, ◌<◌, ◌≡◌, refl, ap, ◌∙◌, ◌⊎◌, List, [], ◌∷◌, ◌++◌, append_assoc,
  length, length-append, take, drop, take-append_at, drop-append_at, All, Run, returns, ◌>>=◌,
  arith, ◌==◌, if◌then◌else◌, le→ltb,
}
use mathlib.Core.Path.{fun_ext}
use for_visibility.Text.{Bytes}
use for_visibility.Wire.{be16, put_be16}
use for_visibility.Gnmi.{Effect}
use for_visibility.Vrf.{Kernel}
use for_visibility.Fpm.Nexthop.{Fpm}
use for_visibility.Fpm.Stream.{handle_netlink, frames, handle}

-- [version][type][length, big endian] and the message
pub record Frame : Type 0 where
  pub version : ℕ
  pub kind : ℕ
  pub body : Bytes

abbrev pub IsFrame : Frame → Type 0
IsFrame fr = length fr.body + 4 < 65536

abbrev pub frame_bytes : Frame → Bytes
frame_bytes fr = fr.version ∷ fr.kind ∷ (put_be16 (4 + length fr.body) ++ fr.body)

unfoldable pub stream_bytes : List Frame → Bytes
stream_bytes [] = []
stream_bytes (fr ∷ frs) = frame_bytes fr ++ stream_bytes frs

-- The meaning of a list of frames: each Netlink message by `handleNetlink`, every other frame skipped.
unfoldable pub handle_each : (ℕ → Kernel) → ℕ → Fpm → List Frame → Run (Fpm × List Effect)
handle_each kernel k f [] = returns (f, [])
handle_each kernel k f (fr ∷ frs) =
    let skip = handle_each kernel (suc k) f frs in
    let step = handle_netlink (kernel k) f fr.body >>= λ (f', effects).
    handle_each kernel (suc k) f' frs >>= λ (f'', more). returns (f'', effects ++ more) in
    if fr.kind == 1 then step else skip

module _ (fr : Frame) (fits : IsFrame fr) (rest : Bytes) where
  frame-be16 : be16 (frame_bytes fr ++ rest) 2 ≡ 4 + length fr.body
  frame-be16 = omega arith

  frame-size : 4 + length fr.body - 4 ≡ length fr.body
  frame-size = omega arith

  frame-body : take (4 + length fr.body - 4) (drop 4 (frame_bytes fr ++ rest)) ≡ fr.body
  frame-body = rw frame-size (take-append_at _ fr.body rest refl)

  frame-rest : drop (4 + length fr.body - 4) (drop 4 (frame_bytes fr ++ rest)) ≡ rest
  frame-rest = rw frame-size (drop-append_at _ fr.body rest refl)

  frame-length : length (frame_bytes fr ++ rest) ≡ 4 + length fr.body + length rest
  frame-length = omega (arith, length-append fr.body rest)

-- What makes the loop stop: the connection ends inside a frame, or a length is too small.
abbrev pub IsCut : Bytes → Type 0
IsCut tail = (length tail < 4) ⊎ (be16 tail 2 < 4) ⊎ (length tail < be16 tail 2)

frames-cut :
    (kernel : ℕ → Kernel) (fuel k : ℕ) (f : Fpm) (tail : Bytes)
    → IsCut tail
    → frames kernel fuel k f tail ≡ returns (f, [])
unfolding frames
frames-cut kernel zero k f tail cut = refl
frames-cut kernel (suc fuel) k f tail cut = ground arith

frames-frame :
    (kernel : ℕ → Kernel) (fuel k : ℕ) (f : Fpm) (fr : Frame) (rest : Bytes)
    → IsFrame fr
    → frames kernel (suc fuel) k f (frame_bytes fr ++ rest) ≡ (
        if fr.kind == 1
        then (handle_netlink (kernel k) f fr.body >>= λ (f', effects).
            frames kernel fuel (suc k) f' rest >>= λ (f'', more). returns (f'', effects ++ more))
        else frames kernel fuel (suc k) f rest)
frames-frame kernel fuel k f fr rest fits =
    unfold frames in
    rw (
      frame-be16 fr fits rest,
      frame-body fr fits rest,
      frame-rest fr fits rest,
      frame-length fr fits rest,
      le→ltb (4 + length fr.body + length rest) 4 (omega arith),
      le→ltb (4 + length fr.body) 4 (omega arith),
      le→ltb (4 + length fr.body + length rest) (4 + length fr.body) (omega arith),
    )

frames-handle_each :
    (kernel : ℕ → Kernel) (fuel k : ℕ) (f : Fpm) (frs : List Frame) (tail : Bytes)
    → All IsFrame frs
    → IsCut tail
    → length (stream_bytes frs ++ tail) ≤ fuel
    → frames kernel fuel k f (stream_bytes frs ++ tail) ≡ handle_each kernel k f frs
unfolding stream_bytes handle_each
frames-handle_each kernel fuel k f [] tail h cut enough = frames-cut kernel fuel k f tail cut
frames-handle_each kernel zero k f (fr ∷ frs) tail h cut enough = absurd (omega arith)
frames-handle_each kernel (suc fuel) k f (fr ∷ frs) tail (fits, h) cut enough =
    let rest : Bytes = stream_bytes frs ++ tail in
    rw (append_assoc (frame_bytes fr) (stream_bytes frs) tail) (
      frames-frame kernel fuel k f fr rest fits
      ∙ ap {B = Run (Fpm × List Effect)}
          (λ (g : Fpm → Run (Fpm × List Effect)).
            if fr.kind == 1
            then (handle_netlink (kernel k) f fr.body >>= λ (f', effects).
                g f' >>= λ (f'', more). returns (f'', effects ++ more))
            else g f)
          (fun_ext λ f'. frames-handle_each kernel fuel (suc k) f' frs tail h cut (
            omega (
              arith,
              ap length (append_assoc (frame_bytes fr) (stream_bytes frs) tail),
              frame-length fr fits rest,
            ))))

-- The connection's bytes are handled frame by frame, in order, whatever the messages do, and an
-- unfinished or malformed frame behind them stops the loop with no further effect.
pub handle-handle_each :
    (kernel : ℕ → Kernel) (f : Fpm) (frs : List Frame) (tail : Bytes)
    → All IsFrame frs
    → IsCut tail
    → handle kernel f (stream_bytes frs ++ tail) ≡ handle_each kernel 0 f frs
unfolding handle
handle-handle_each kernel f frs tail h cut =
    frames-handle_each kernel _ 0 f frs tail h cut (omega arith)
