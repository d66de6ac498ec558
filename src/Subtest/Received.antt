-- ===== src/Subtest/Received.antt =====
-- What the test client counts.
use for_visibility.Prelude.{
  ℕ, suc, ◌+◌, ◌≡◌, refl, subst, Bool, true, false, List, [], ◌∷◌, ◌++◌, map, length, arith,
}
use for_visibility.Text.{Bytes}
use for_visibility.Gnmi.{GnmiPath, TypedValue, Update}
use for_visibility.Subtest.{
  Response, update, sync_response, other_response, Printed, updated, removed, synced, update_line,
  delete_line, receive_loop,
}

-- Every line of a finished snapshot names the numbers of the updates and of the deletes above it,
-- counted from `u` and `d` on.
abbrev pub IsCounted : ℕ → ℕ → List Printed → Type 0
IsCounted u d [] = Unit
IsCounted u d (updated path val ∷ lines) = IsCounted (suc u) d lines
IsCounted u d (removed path ∷ lines) = IsCounted u (suc d) lines
IsCounted u d (synced updates deletes ∷ lines) = (updates ≡ u) × (deletes ≡ d) × IsCounted u d lines

module _ (print : TypedValue → Bytes) where
  updates-IsCounted :
      (u d : ℕ) (prefix : GnmiPath) (ups : List Update) (lines : List Printed)
      → IsCounted (u + length ups) d lines
      → IsCounted u d (map (update_line print prefix) ups ++ lines)
  updates-IsCounted u d prefix [] lines h = subst (λ n. IsCounted n d lines) (omega arith) h
  updates-IsCounted u d prefix (up ∷ ups) lines h =
      updates-IsCounted (suc u) d prefix ups lines
        (subst (λ n. IsCounted n d lines) (omega arith) h)

  deletes-IsCounted :
      (u d : ℕ) (prefix : GnmiPath) (dels : List GnmiPath) (lines : List Printed)
      → IsCounted u (d + length dels) lines
      → IsCounted u d (map (delete_line print prefix) dels ++ lines)
  deletes-IsCounted u d prefix [] lines h = subst (λ n. IsCounted u n lines) (omega arith) h
  deletes-IsCounted u d prefix (p ∷ dels) lines h =
      deletes-IsCounted u (suc d) prefix dels lines
        (subst (λ n. IsCounted u n lines) (omega arith) h)

  receive_loop-IsCounted :
      (once : Bool) (u d : ℕ) (responses : List Response)
      → IsCounted u d (receive_loop print once u d responses)
  unfolding receive_loop
  receive_loop-IsCounted only_once u d [] = tt
  receive_loop-IsCounted only_once u d (update n ∷ responses) =
      updates-IsCounted u d n.prefix n.update _ (
        deletes-IsCounted (u + length n.update) d n.prefix n.delete _
          (receive_loop-IsCounted only_once (u + length n.update) (d + length n.delete) responses))
  receive_loop-IsCounted true u d (sync_response ∷ responses) = (refl, refl, tt)
  receive_loop-IsCounted false u d (sync_response ∷ responses) =
      (refl, refl, receive_loop-IsCounted false u d responses)
  receive_loop-IsCounted only_once u d (other_response ∷ responses) =
      receive_loop-IsCounted only_once u d responses

-- Whatever the shim sends, every line that the client prints at the end of a snapshot names exactly
-- the numbers of the updates and of the deletes that it printed before.
pub receive-IsCounted :
    (print : TypedValue → Bytes) (once : Bool) (responses : List Response)
    → IsCounted 0 0 (receive_loop print once 0 0 responses)
receive-IsCounted print once responses = receive_loop-IsCounted print once 0 0 responses
