-- ===== src/Exporter/Metrics.antt =====
-- The samples that the exporters print with fmt, in the text format of Prometheus.
pub mod Reader
pub mod Values
pub mod Scrape
pub mod Lines
pub mod Page
use for_visibility.Prelude.{ℕ, Bool, List, [], ◌∷◌, ◌++◌, map, ltb, if◌then◌else◌}
use for_visibility.Text.{Bytes, text, join}
use for_visibility.Text.Decimal.{itoa}
use for_visibility.Text.Quote.{quote}

-- the labels of a sample: names and values
abbrev pub Labels : Type 0
Labels = List (Bytes × Bytes)

-- `k=%q`
abbrev pub label_text : (ℕ → Bool) → Bytes × Bytes → Bytes
label_text is_print (k, v) = k ++ 61 ∷ quote is_print v

-- `k=%q,k=%q,…`
abbrev pub labels_text : (ℕ → Bool) → Labels → Bytes
labels_text is_print labels = join (map (label_text is_print) labels) (44 ∷ [])

-- `name{k=%q,…} value`, without the newline
unfoldable pub sample : (ℕ → Bool) → Bytes → Labels → Bytes → Bytes
unfolding join quote
sample is_print name labels value = name ++ 123 ∷ (labels_text is_print labels ++ 125 ∷ 32 ∷ value)

-- a sample: its name, its labels and its value
abbrev pub Sample : Type 0
Sample = Bytes × Labels × Bytes

abbrev pub print_sample : (ℕ → Bool) → Sample → Bytes
print_sample is_print (name, labels, value) = sample is_print name labels value

-- one call of WriteString or Fprintf, without its newline
pub data Line : Type 0 where
  comment : Bytes → Line
  metric : Sample → Line
  -- a name without labels, and its value
  bare : Bytes → Bytes → Line

abbrev pub print_line : (ℕ → Bool) → Line → Bytes
print_line is_print (comment s) = s
print_line is_print (metric m) = print_sample is_print m
print_line is_print (bare name value) = name ++ 32 ∷ value

-- the lines, each with its newline
unfoldable pub page : (ℕ → Bool) → List Line → Bytes
unfolding sample
page is_print [] = []
page is_print (line ∷ lines) = print_line is_print line ++ 10 ∷ page is_print lines

-- the samples of a page
abbrev pub samples : List Line → List Sample
samples [] = []
samples (comment s ∷ lines) = samples lines
samples (metric m ∷ lines) = m ∷ samples lines
samples (bare name value ∷ lines) = (name, [], value) ∷ samples lines

-- %02d
unfoldable pub two_digits : ℕ → Bytes
unfolding itoa
two_digits n = if ltb n 10 then 48 ∷ itoa n else itoa n
