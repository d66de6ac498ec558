-- ===== src/Attr/Labels.antt =====
-- The label stacks of fpm.go: what `decodeMPLSStack` and `parseMPLSEncap` read, and what
-- `labelsCSV` writes.
use for_visibility.Prelude.{
  ℕ, zero, suc, ◌+◌, ◌*◌, ◌/◌, ◌%◌, ◌≤◌, ◌<◌, ◌≡◌, refl, ap, List, [], ◌∷◌, ◌++◌, append_assoc,
  append-nil, length, length-append, All, map, returns, arith, sym, ◌∙◌,
}
use mathlib.Core.Path.{ap₂}
use for_visibility.Text.{Bytes, text, join}
use for_visibility.Text.Decimal.{itoa}
use for_visibility.Wire.{be32, put_be32}
use for_visibility.Attr.{decode_loop, decode_mpls_stack, parse_mpls_encap, csv_loop, labels_csv}
use for_visibility.Attr.Walk.{encode, for_each_attr-encode}

-- One label stack entry of RFC 3032: 20 bits of label, 3 of traffic class, the bottom bit, the TTL.
pub record StackEntry : Type 0 where
  pub label : ℕ
  pub traffic_class : ℕ
  pub ttl : ℕ

abbrev pub IsEntry : StackEntry → Type 0
IsEntry e = (e.label < 1048576) × (e.traffic_class < 8) × (e.ttl < 256)

abbrev entry_word : StackEntry → ℕ → ℕ
entry_word e bottom = e.label * 4096 + e.traffic_class * 512 + bottom * 256 + e.ttl

-- The bottom bit is set on the last entry alone.
unfoldable pub encode_stack : StackEntry → List StackEntry → Bytes
encode_stack e [] = put_be32 (entry_word e 1)
encode_stack e (next ∷ es) = put_be32 (entry_word e 0) ++ encode_stack next es

entry-be32 : (w : ℕ) (rest : Bytes) → w < 4294967296 → be32 (put_be32 w ++ rest) 0 ≡ w
entry-be32 w rest h = omega arith

decode_loop-last :
    (fuel w : ℕ) (rest : Bytes)
    → w < 4294967296
    → w / 256 % 2 ≡ 1
    → decode_loop (suc fuel) (put_be32 w ++ rest) ≡ (w / 4096) ∷ []
decode_loop-last fuel w rest h bottom =
    unfold decode_loop in rw (entry-be32 w rest h, bottom) (ground arith)

decode_loop-next :
    (fuel w : ℕ) (rest : Bytes)
    → w < 4294967296
    → w / 256 % 2 ≡ 0
    → decode_loop (suc fuel) (put_be32 w ++ rest) ≡ (w / 4096) ∷ decode_loop fuel rest
decode_loop-next fuel w rest h more =
    unfold decode_loop in rw (entry-be32 w rest h, more) (ground arith)

abbrev AllEntries : StackEntry → List StackEntry → Type 0
AllEntries e es = All IsEntry (e ∷ es)

high_bits :
    (e : StackEntry) (bottom : ℕ) → IsEntry e → bottom < 2 → entry_word e bottom / 4096 ≡ e.label
high_bits e bottom h small = omega arith

decode_loop-encode_stack :
    (fuel : ℕ) (e : StackEntry) (es : List StackEntry) (rest : Bytes)
    → AllEntries e es
    → length (encode_stack e es) ≤ fuel
    → decode_loop fuel (encode_stack e es ++ rest) ≡ map (λ x. x.label) (e ∷ es)
unfolding encode_stack
decode_loop-encode_stack zero e [] rest h enough = absurd (omega arith)
decode_loop-encode_stack zero e (next ∷ es) rest h enough = absurd (omega arith)
decode_loop-encode_stack (suc fuel) e [] rest (h, _) enough =
    decode_loop-last fuel (entry_word e 1) rest (omega arith) (omega arith)
    ∙ ap (λ l. l ∷ []) (high_bits e 1 h (omega arith))
decode_loop-encode_stack (suc fuel) e (next ∷ es) rest (h, hs) enough =
    decode_loop-next fuel (entry_word e 0) (encode_stack next es ++ rest) (omega arith)
      (omega arith)
    ∙ ap₂ ◌∷◌ (high_bits e 0 h (omega arith))
        (decode_loop-encode_stack fuel next es rest hs (omega arith))

-- A label stack of RFC 3032 is decoded to its labels, top first, and nothing behind the bottom entry
-- is read.
pub decode_mpls_stack-encode_stack :
    (e : StackEntry) (es : List StackEntry) (rest : Bytes)
    → All IsEntry (e ∷ es)
    → decode_mpls_stack (encode_stack e es ++ rest) ≡ map (λ x. x.label) (e ∷ es)
unfolding decode_mpls_stack
decode_mpls_stack-encode_stack e es rest h =
    decode_loop-encode_stack _ e es rest h (omega (arith, length-append (encode_stack e es) rest))

-- The nested MPLS_IPTUNNEL_DST attribute of an RTA_ENCAP or NHA_ENCAP payload, whatever its two flag
-- bits, gives the labels of its stack.
pub parse_mpls_encap-encode :
    (flags : ℕ) (e : StackEntry) (es : List StackEntry)
    → flags < 4
    → 4 + length (encode_stack e es) < 65536
    → All IsEntry (e ∷ es)
    → parse_mpls_encap
        (encode (record { atype = flags * 16384 + 1; payload = encode_stack e es } ∷ []))
      ≡ returns (map (λ x. x.label) (e ∷ es))
unfolding parse_mpls_encap
parse_mpls_encap-encode flags e es few short h =
    rw
      (
        for_each_attr-encode
            (record { atype = flags * 16384 + 1; payload = encode_stack e es } ∷ [])
            ((short, omega arith), tt),
        type_bits,
      )
      (ap returns (
        ap decode_mpls_stack (sym (append-nil (encode_stack e es)))
        ∙ decode_mpls_stack-encode_stack e es [] h))
  where
    type_bits : (flags * 16384 + 1) % 16384 ≡ 1
    type_bits = omega arith

csv_loop-join :
    (s : Bytes) (x : ℕ) (l : List ℕ)
    → csv_loop (s ++ itoa x) l ≡ s ++ join (map itoa (x ∷ l)) (text ",")
unfolding csv_loop join
csv_loop-join s x [] = refl
csv_loop-join s x (y ∷ l) = csv_loop-join ((s ++ itoa x) ++ text ",") y l ∙ simp append_assoc

-- `labelsCSV` writes the labels in decimal with a comma between two, the top of the stack first.
pub labels_csv-join : (l : List ℕ) → labels_csv l ≡ join (map itoa l) (text ",")
unfolding labels_csv join
labels_csv-join [] = refl
labels_csv-join (x ∷ l) = csv_loop-join [] x l
