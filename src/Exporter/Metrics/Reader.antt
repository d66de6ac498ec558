-- ===== src/Exporter/Metrics/Reader.antt =====
-- How Prometheus reads a sample of its text format, as far as the exporters use the format.
use for_visibility.Prelude.{
  ℕ, zero, suc, Bool, true, false, ◌||◌, Option, none, some, [], ◌∷◌, ◌==◌, if◌then◌else◌, length,
}
use for_visibility.Text.{Bytes}
use for_visibility.Exporter.Metrics.{Labels}

abbrev pub put_byte : ℕ → Option (Bytes × Bytes) → Option (Bytes × Bytes)
put_byte c none = none
put_byte c (some (v, s)) = some (c ∷ v, s)

-- The escapes of the text format are \\, \" and \n.
abbrev pub unescape : ℕ → Option (Bytes × Bytes) → Option (Bytes × Bytes)
unescape d later =
    if d == 110 then put_byte 10 later else if d == 92 || d == 34 then put_byte d later else none

-- A label value behind its opening quote, or behind a backslash: the value, and what stands behind
-- the closing quote.
unfoldable pub read_value : Bool → Bytes → Option (Bytes × Bytes)
read_value escaped [] = none
read_value true (c ∷ s) = unescape c (read_value false s)
read_value false (c ∷ s) =
    let rest = read_value false s in
    let behind = read_value true s in
    if c == 34 then some ([], s) else if c == 92 then behind else put_byte c rest

-- strings.Cut
unfoldable pub cut : ℕ → Bytes → Option (Bytes × Bytes)
cut c [] = none
cut c (x ∷ s) = let later = cut c s in if x == c then some ([], s) else put_byte x later

-- a value with its opening quote
abbrev pub read_quoted : Bytes → Option (Bytes × Bytes)
read_quoted [] = none
read_quoted (c ∷ s) = if c == 34 then read_value false s else none

-- behind a label: the end, or a comma and the next label
abbrev pub next_label :
    Bytes × Bytes → Bytes → (Bytes → Option (Labels × Bytes)) → Option (Labels × Bytes)
next_label l [] more = none
next_label l (c ∷ s) more =
    let after = more s in
    if c == 125
    then some (l ∷ [], s)
    else if c == 44
    then elim after [ none ↦ none | some (labels, rest) ↦ some (l ∷ labels, rest) ]
    else none

-- the labels behind the opening brace, and what stands behind the closing one
unfoldable pub read_labels : ℕ → Bytes → Option (Labels × Bytes)
unfolding cut read_value
read_labels zero s = none
read_labels (suc fuel) s = elim (cut 61 s) [
  | none ↦ none
  | some (k, t) ↦ elim (read_quoted t) [
    | none ↦ none
    | some (v, rest) ↦ next_label (k, v) rest (read_labels fuel)
  ]
]

abbrev pub read_end : Bytes → Option (Labels × Bytes) → Option (Bytes × Labels × Bytes)
read_end name none = none
read_end name (some (labels, [])) = none
read_end name (some (labels, c ∷ value)) = if c == 32 then some (name, labels, value) else none

-- a sample without labels
abbrev pub read_bare : Option (Bytes × Bytes) → Option (Bytes × Labels × Bytes)
read_bare none = none
read_bare (some (name, value)) = some (name, [], value)

-- the name in front of a brace or a space, the labels and the value
unfoldable pub read_metric : Bytes → Option (Bytes × Labels × Bytes)
unfolding cut read_labels
read_metric line = elim (cut 123 line) [
  | none ↦ read_bare (cut 32 line)
  | some (name, s) ↦ read_end name (read_labels (length s) s)
]

-- A line of the text format, as far as the exporters use it: name, labels and value. An empty line
-- and one that begins with '#' is no sample.
unfoldable pub read_sample : Bytes → Option (Bytes × Labels × Bytes)
unfolding read_metric
read_sample [] = none
read_sample (c ∷ line) = if c == 35 then none else read_metric (c ∷ line)
