-- ===== src/Exporter/Metrics/Lines.antt =====
-- The lines of a page of metrics.
use for_visibility.Prelude.{ℕ, refl, Bool, [], ◌∷◌, ◌++◌, ltb, arith, All}
use for_visibility.Text.{Bytes, join}
use for_visibility.Text.Decimal.{itoa, itoa-IsDigit, IsDigit}
use for_visibility.Text.Split.{has_byte}
use for_visibility.Text.Quote.{quote}
use for_visibility.Text.Quote.Escaped.{IsLine, append-IsLine, quote-IsLine}
use for_visibility.Exporter.Metrics.Values.{IsPlain, IsReadable, done, ascii}
use for_visibility.Prelude.{if-cases}
use for_visibility.Exporter.Metrics.{Labels, label_text, labels_text, sample, two_digits}

-- The names of the labels have no newline.
abbrev pub HasKeys : Labels → Type 0
HasKeys labels = All (λ (l : Bytes × Bytes). IsLine l.0) labels

module _ (is_print : ℕ → Bool) where
  label_text-IsLine : (l : Bytes × Bytes) → IsLine l.0 → IsLine (label_text is_print l)
  unfolding has_byte
  label_text-IsLine l h = append-IsLine l.0 (61 ∷ quote is_print l.1) h (quote-IsLine is_print l.1)

  labels_text-IsLine : (labels : Labels) → HasKeys labels → IsLine (labels_text is_print labels)
  unfolding has_byte join
  labels_text-IsLine [] h = refl
  labels_text-IsLine (l ∷ []) h = label_text-IsLine l h.0
  labels_text-IsLine (l ∷ m ∷ ls) h =
      append-IsLine (label_text is_print l ++ 44 ∷ []) (labels_text is_print (m ∷ ls))
        (append-IsLine (label_text is_print l) (44 ∷ []) (label_text-IsLine l h.0) refl)
        (labels_text-IsLine (m ∷ ls) h.1)

  -- A sample is one line, whatever the values of its labels are.
  pub sample-IsLine :
      (name : Bytes) (labels : Labels) (value : Bytes)
      → IsLine name
      → HasKeys labels
      → IsLine value
      → IsLine (sample is_print name labels value)
  unfolding sample has_byte
  sample-IsLine name labels value hn hl hv =
      append-IsLine name (123 ∷ (labels_text is_print labels ++ 125 ∷ 32 ∷ value)) hn (
        append-IsLine (labels_text is_print labels) (125 ∷ 32 ∷ value)
          (labels_text-IsLine labels hl) hv)

digits-IsLine : (s : Bytes) → All IsDigit s → IsLine s
unfolding has_byte
digits-IsLine [] h = refl
digits-IsLine (c ∷ s) (d, h) = ground (arith, digits-IsLine s h)

pub itoa-IsLine : (n : ℕ) → IsLine (itoa n)
itoa-IsLine n = digits-IsLine (itoa n) (itoa-IsDigit n)

pub two_digits-IsDigit : (n : ℕ) → All IsDigit (two_digits n)
unfolding two_digits
two_digits-IsDigit n =
    if-cases (All IsDigit) (ltb n 10) _ _ (λ small. ((omega arith, omega arith), itoa-IsDigit n))
      (λ large. itoa-IsDigit n)

pub digits-IsReadable : (is_print : ℕ → Bool) (s : Bytes) → All IsDigit s → IsReadable is_print s
digits-IsReadable is_print [] h = done
digits-IsReadable is_print (c ∷ s) (d, h) =
    ascii (digit-IsPlain c d) (digits-IsReadable is_print s h)
  where
    digit-IsPlain : (c : ℕ) → IsDigit c → IsPlain c
    digit-IsPlain c d = ground (arith, d)
