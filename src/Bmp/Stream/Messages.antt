-- ===== src/Bmp/Stream/Messages.antt =====
-- The messages of a BMP connection are handled one by one, in order.
use for_visibility.Prelude.{
  ℕ, zero, suc, ◌+◌, ◌-◌, ◌≤◌, ◌<◌, ◌≡◌, ◌≢◌, refl, ap, ◌∙◌, ◌⊎◌, List, [], ◌∷◌, ◌++◌, append_assoc,
  length, length-append, take, drop, take-append_at, drop-append_at, All, Run, returns, ◌>>=◌,
  arith, le→ltb, lt→ltb, ltb, not, ◌||◌, inl, inr, Bool, true, false, ◌==◌, ==_ne, if◌then◌else◌,
}
use mathlib.Core.Path.{fun_ext}
use for_visibility.Text.{Bytes}
use for_visibility.Wire.{at, be32, put_be32}
use for_visibility.Gnmi.{Effect}
use for_visibility.Vrf.{Kernel}
use for_visibility.Bmp.Peer.{Bmp}
use for_visibility.Bmp.Stream.{handle_message, messages, handle}

-- [version 3][length, big endian][type] and the body
pub record Message : Type 0 where
  pub kind : ℕ
  pub body : Bytes

abbrev pub IsMessage : Message → Type 0
IsMessage m = length m.body + 6 < 4294967296

abbrev pub message_bytes : Message → Bytes
message_bytes m = 3 ∷ (put_be32 (6 + length m.body) ++ m.kind ∷ m.body)

unfoldable pub stream_bytes : List Message → Bytes
stream_bytes [] = []
stream_bytes (m ∷ ms) = message_bytes m ++ stream_bytes ms

unfoldable pub handle_each : (ℕ → Kernel) → ℕ → Bmp → List Message → Run (Bmp × List Effect)
handle_each kernel k b [] = returns (b, [])
handle_each kernel k b (m ∷ ms) = handle_message (kernel k) b m.kind m.body >>= λ (b', effects).
    handle_each kernel (suc k) b' ms >>= λ (b'', more). returns (b'', effects ++ more)

module _ (m : Message) (fits : IsMessage m) (rest : Bytes) where
  message-be32 : be32 (message_bytes m ++ rest) 1 ≡ 6 + length m.body
  message-be32 = omega arith

  message-size : 6 + length m.body - 6 ≡ length m.body
  message-size = omega arith

  message-body : take (6 + length m.body - 6) (drop 6 (message_bytes m ++ rest)) ≡ m.body
  message-body = rw message-size (take-append_at _ m.body rest refl)

  message-rest : drop (6 + length m.body - 6) (drop 6 (message_bytes m ++ rest)) ≡ rest
  message-rest = rw message-size (drop-append_at _ m.body rest refl)

  message-length : length (message_bytes m ++ rest) ≡ 6 + length m.body + length rest
  message-length = omega (arith, length-append m.body rest)

if_same {ℓ} : {A : Type ℓ} (b : Bool) (x : A) → (if b then x else x) ≡ x
if_same true x = refl
if_same false x = refl

if_or_true {ℓ} : {A : Type ℓ} (c : Bool) (x y : A) → (if c || true then x else y) ≡ x
if_or_true true x y = refl
if_or_true false x y = refl

if_nested {ℓ} :
    {A : Type ℓ} (a c : Bool) (x y : A) → (if a then x else if c || true then x else y) ≡ x
if_nested true c x y = refl
if_nested false c x y = if_or_true c x y

-- What makes the loop stop: the connection ends inside a message, the version is not 3, or the length
-- is too small.
abbrev pub IsCut : Bytes → Type 0
IsCut tail = (length tail < 6) ⊎ (at tail 0 ≢ 3) ⊎ (be32 tail 1 < 6) ⊎ (length tail < be32 tail 1)

stops :
    (kernel : ℕ → Kernel) (fuel k : ℕ) (b : Bmp) (tail : Bytes)
    → IsCut tail
    → messages kernel (suc fuel) k b tail ≡ returns (b, [])
unfolding messages
stops kernel fuel k b tail (inl short) = rw (lt→ltb (length tail) 6 short)
stops kernel fuel k b tail (inr (inl version)) =
    rw (==_ne (at tail 0) 3 version) (if_or_true (ltb (length tail) 6) _ _)
stops kernel fuel k b tail (inr (inr (inl small))) =
    rw (lt→ltb (be32 tail 1) 6 small) (if_same (ltb (length tail) 6 || not (at tail 0 == 3)) _)
stops kernel fuel k b tail (inr (inr (inr unfinished))) =
    rw (lt→ltb (length tail) (be32 tail 1) unfinished)
      (if_nested (ltb (length tail) 6 || not (at tail 0 == 3)) (ltb (be32 tail 1) 6) _ _)

messages-cut :
    (kernel : ℕ → Kernel) (fuel k : ℕ) (b : Bmp) (tail : Bytes)
    → IsCut tail
    → messages kernel fuel k b tail ≡ returns (b, [])
unfolding messages
messages-cut kernel zero k b tail cut = refl
messages-cut kernel (suc fuel) k b tail cut = stops kernel fuel k b tail cut

messages-message :
    (kernel : ℕ → Kernel) (fuel k : ℕ) (b : Bmp) (m : Message) (rest : Bytes)
    → IsMessage m
    → messages kernel (suc fuel) k b (message_bytes m ++ rest) ≡ (
        handle_message (kernel k) b m.kind m.body >>= λ (b', effects).
        messages kernel fuel (suc k) b' rest >>= λ (b'', more). returns (b'', effects ++ more))
messages-message kernel fuel k b m rest fits =
    unfold messages in
    rw (
      message-be32 m fits rest,
      message-body m fits rest,
      message-rest m fits rest,
      message-length m fits rest,
      le→ltb (6 + length m.body + length rest) 6 (omega arith),
      le→ltb (6 + length m.body) 6 (omega arith),
      le→ltb (6 + length m.body + length rest) (6 + length m.body) (omega arith),
    )

messages-handle_each :
    (kernel : ℕ → Kernel) (fuel k : ℕ) (b : Bmp) (ms : List Message) (tail : Bytes)
    → All IsMessage ms
    → IsCut tail
    → length (stream_bytes ms ++ tail) ≤ fuel
    → messages kernel fuel k b (stream_bytes ms ++ tail) ≡ handle_each kernel k b ms
unfolding stream_bytes handle_each
messages-handle_each kernel fuel k b [] tail h cut enough = messages-cut kernel fuel k b tail cut
messages-handle_each kernel zero k b (m ∷ ms) tail h cut enough = absurd (omega arith)
messages-handle_each kernel (suc fuel) k b (m ∷ ms) tail (fits, h) cut enough =
    let rest : Bytes = stream_bytes ms ++ tail in
    rw (append_assoc (message_bytes m) (stream_bytes ms) tail) (
      messages-message kernel fuel k b m rest fits
      ∙ ap {B = Run (Bmp × List Effect)}
          (λ (g : Bmp → Run (Bmp × List Effect)).
            handle_message (kernel k) b m.kind m.body >>= λ (b', effects).
            g b' >>= λ (b'', more). returns (b'', effects ++ more))
          (fun_ext λ b'. messages-handle_each kernel fuel (suc k) b' ms tail h cut (
            omega (
              arith,
              ap length (append_assoc (message_bytes m) (stream_bytes ms) tail),
              message-length m fits rest,
            ))))

-- The connection's bytes are handled message by message, in order, and a message of another version,
-- a malformed or an unfinished one stops the loop with no further effect.
pub handle_message-each :
    (kernel : ℕ → Kernel) (b : Bmp) (ms : List Message) (tail : Bytes)
    → All IsMessage ms
    → IsCut tail
    → handle kernel b (stream_bytes ms ++ tail) ≡ handle_each kernel 0 b ms
unfolding handle
handle_message-each kernel b ms tail h cut =
    messages-handle_each kernel _ 0 b ms tail h cut (omega arith)
