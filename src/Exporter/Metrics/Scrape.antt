-- ===== src/Exporter/Metrics/Scrape.antt =====
-- Prometheus finds the labels that were printed.
use for_visibility.Prelude.{
  ℕ, zero, suc, ◌+◌, ◌<◌, ◌≡◌, refl, Bool, true, false, not, ◌==◌, some, [], ◌∷◌, ◌++◌,
  append_assoc, length, length-append, map, arith, All,
}
use for_visibility.Text.{Bytes, join}
use for_visibility.Text.Split.{has_byte, join_cons}
use for_visibility.Exporter.Metrics.{Labels, label_text, labels_text, sample}
use for_visibility.Exporter.Metrics.Values.{IsReadable, read_value-quote}
use for_visibility.Exporter.Metrics.Reader.{cut, next_label, read_labels, read_metric, read_sample}
use for_visibility.Text.Quote.{quote}

pub cut-part : (c : ℕ) (p s : Bytes) → has_byte c p ≡ false → cut c (p ++ c ∷ s) ≡ some (p, s)
unfolding cut has_byte
cut-part c [] s h = ground arith
cut-part c (x ∷ p) s h = ground (arith, cut-part c p s)

-- The name of a label has no '=', and its value is readable.
abbrev pub IsLabel : (ℕ → Bool) → Bytes × Bytes → Type 0
IsLabel is_print (k, v) = (has_byte 61 k ≡ false) × IsReadable is_print v

module _ (is_print : ℕ → Bool) where
  read_labels-label :
      (fuel : ℕ) (l : Bytes × Bytes) (s : Bytes)
      → IsLabel is_print l
      → read_labels (suc fuel) (label_text is_print l ++ s) ≡ next_label l s (read_labels fuel)
  unfolding read_labels
  read_labels-label fuel (k, v) s (key, plain) =
      let (t, quoted, value) = read_value-quote is_print v s plain in
      rw
        (
          append_assoc k (61 ∷ quote is_print v) s,
          quoted,
          read_labels,
          cut-part 61 k (34 ∷ t) key,
          value,
        )
        refl

  joined :
      (l m : Bytes × Bytes) (ls : Labels)
      → labels_text is_print (l ∷ m ∷ ls)
        ≡ label_text is_print l ++ 44 ∷ labels_text is_print (m ∷ ls)
  joined l m ls =
      join_cons 44 (label_text is_print l) (label_text is_print m) (map (label_text is_print) ls)

  read_labels-labels_text :
      (fuel : ℕ) (l : Bytes × Bytes) (ls : Labels) (rest : Bytes)
      → All (IsLabel is_print) (l ∷ ls)
      → length ls < fuel
      → read_labels fuel (labels_text is_print (l ∷ ls) ++ 125 ∷ rest) ≡ some (l ∷ ls, rest)
  unfolding join
  read_labels-labels_text zero l ls rest h few = absurd (omega arith)
  read_labels-labels_text (suc fuel) l [] rest h few = read_labels-label fuel l (125 ∷ rest) h.0
  read_labels-labels_text (suc fuel) l (m ∷ ls) rest h few =
      rw
        (
          joined l m ls,
          append_assoc (label_text is_print l) (44 ∷ labels_text is_print (m ∷ ls)) (125 ∷ rest),
          read_labels-label fuel l (44 ∷ labels_text is_print (m ∷ ls) ++ 125 ∷ rest) h.0,
          read_labels-labels_text fuel m ls rest h.1 (omega arith),
        )
        refl

  length-labels_text :
      (l : Bytes × Bytes) (ls : Labels) → length ls < length (labels_text is_print (l ∷ ls)) + 1
  length-labels_text l [] = omega arith
  length-labels_text l (m ∷ ls) =
      rw (joined l m ls, length-append (label_text is_print l) (44 ∷ labels_text is_print (m ∷ ls)))
        omega (arith, length-labels_text m ls)

read_metric-sample :
    (is_print : ℕ → Bool) (name : Bytes) (l : Bytes × Bytes) (ls : Labels) (value : Bytes)
    → has_byte 123 name ≡ false
    → All (IsLabel is_print) (l ∷ ls)
    → read_metric (sample is_print name (l ∷ ls) value) ≡ some (name, l ∷ ls, value)
unfolding read_metric sample
read_metric-sample is_print name l ls value h labels =
    rw
      (
        read_metric,
        cut-part 123 name s h,
        read_labels-labels_text is_print (length s) l ls (32 ∷ value) labels enough,
      )
      refl
  where
    s : Bytes
    s = labels_text is_print (l ∷ ls) ++ 125 ∷ 32 ∷ value

    enough : length ls < length s
    enough =
        rw (length-append (labels_text is_print (l ∷ ls)) (125 ∷ 32 ∷ value)) omega
          (arith, length-labels_text is_print l ls)

-- The name of a sample is not empty and does not begin like a comment.
abbrev pub is_name : Bytes → Bool
is_name [] = false
is_name (c ∷ s) = not (c == 35)

-- Prometheus reads from the line of a sample the name, the labels and the value that were printed.
-- The name has no brace and there is a label; the names of labels have no '=', and their values are
-- valid UTF-8 text of printable runes and newlines.
pub read_sample-sample :
    (is_print : ℕ → Bool) (name : Bytes) (l : Bytes × Bytes) (ls : Labels) (value : Bytes)
    → is_name name ≡ true
    → has_byte 123 name ≡ false
    → All (IsLabel is_print) (l ∷ ls)
    → read_sample (sample is_print name (l ∷ ls) value) ≡ some (name, l ∷ ls, value)
unfolding read_sample sample
read_sample-sample is_print [] l ls value first h labels = absurd (ground arith)
read_sample-sample is_print (c ∷ name) l ls value first h labels =
    rw (plain c first) (unfold sample in read_metric-sample is_print (c ∷ name) l ls value h labels)
  where
    plain : (c : ℕ) → not (c == 35) ≡ true → (c == 35) ≡ false
    plain c e = ground arith
