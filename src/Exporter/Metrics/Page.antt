-- ===== src/Exporter/Metrics/Page.antt =====
-- The samples that Prometheus reads from a page of metrics.
use for_visibility.Prelude.{
  ℕ, ◌≡◌, refl, ap, ◌∙◌, Bool, true, false, Option, none, some, List, [], ◌∷◌, ◌++◌, map, All,
  All-append,
}
use for_visibility.Text.{Bytes}
use for_visibility.Text.Split.{has_byte, split_on, split_on-part}
use for_visibility.Text.Quote.Escaped.{IsLine}
use for_visibility.Exporter.Metrics.{Sample, Line, comment, metric, bare, print_line, page, samples}
use for_visibility.Exporter.Metrics.Reader.{read_sample, cut}
use for_visibility.Exporter.Metrics.Scrape.{IsLabel, is_name, read_sample-sample}
use for_visibility.Exporter.Metrics.Lines.{HasKeys, sample-IsLine}

-- the samples of the lines in order; a line that is no sample is passed over
abbrev pub keep_sample : Option Sample → List Sample → List Sample
keep_sample none found = found
keep_sample (some m) found = m ∷ found

abbrev pub read_lines : List Bytes → List Sample
read_lines [] = []
read_lines (line ∷ lines) = keep_sample (read_sample line) (read_lines lines)

-- the samples that Prometheus reads from a page, with and without labels
unfoldable pub scrape : Bytes → List Sample
unfolding split_on read_sample
scrape printed = read_lines (split_on 10 printed)

-- A comment is one line and no sample.
abbrev pub IsComment : Bytes → Type 0
IsComment line = IsLine line × (read_sample line ≡ none)

-- The name begins like a name and has neither a brace nor a newline, the names of the labels no newline, and the value no
-- newline.
abbrev pub IsSample : Sample → Type 0
IsSample (name, [], value) = ⊥
IsSample (name, l ∷ ls, value) =
    (is_name name ≡ true)
    × (has_byte 123 name ≡ false)
    × IsLine name
    × HasKeys (l ∷ ls)
    × IsLine value

abbrev pub IsWellFormed : Line → Type 0
IsWellFormed (comment s) = IsComment s
IsWellFormed (metric m) = IsSample m
IsWellFormed (bare name value) =
    IsLine (name ++ 32 ∷ value) × (read_sample (name ++ 32 ∷ value) ≡ some (name, [], value))

-- The labels of a sample can be read back.
abbrev pub HasLabels : (ℕ → Bool) → Sample → Type 0
HasLabels is_print (name, labels, value) = All (IsLabel is_print) labels

pub samples-append : (xs ys : List Line) → samples (xs ++ ys) ≡ samples xs ++ samples ys
samples-append [] ys = refl
samples-append (comment s ∷ xs) ys = samples-append xs ys
samples-append (metric m ∷ xs) ys = ap (λ rest. m ∷ rest) (samples-append xs ys)
samples-append (bare name value ∷ xs) ys =
    ap (λ rest. (name, [], value) ∷ rest) (samples-append xs ys)

module _ (is_print : ℕ → Bool) where
  pub HasLabels-append :
      (xs ys : List Line)
      → All (HasLabels is_print) (samples xs)
      → All (HasLabels is_print) (samples ys)
      → All (HasLabels is_print) (samples (xs ++ ys))
  HasLabels-append xs ys h k =
      rw (samples-append xs ys) (All-append (HasLabels is_print) (samples xs) (samples ys) h k)

  print_line-IsLine : (line : Line) → IsWellFormed line → IsLine (print_line is_print line)
  print_line-IsLine (comment s) h = h.0
  print_line-IsLine (metric (name, [], value)) h = absurd h
  print_line-IsLine (metric (name, l ∷ ls, value)) (_, _, hn, hk, hv) =
      sample-IsLine is_print name (l ∷ ls) value hn hk hv
  print_line-IsLine (bare name value) h = h.0

  -- A page of well-formed lines has these lines and no other, whatever the labels are.
  pub split_on-page :
      (lines : List Line)
      → All IsWellFormed lines
      → split_on 10 (page is_print lines) ≡ map (print_line is_print) lines ++ [] ∷ []
  unfolding split_on page
  split_on-page [] h = refl
  split_on-page (line ∷ lines) h =
      split_on-part 10 (print_line is_print line) (page is_print lines) (print_line-IsLine line h.0)
      ∙ ap (λ rest. print_line is_print line ∷ rest) (split_on-page lines h.1)

  read_lines-page :
      (lines : List Line)
      → All IsWellFormed lines
      → All (HasLabels is_print) (samples lines)
      → read_lines (map (print_line is_print) lines ++ [] ∷ []) ≡ samples lines
  unfolding read_sample cut
  read_lines-page [] h hl = refl
  read_lines-page (comment s ∷ lines) h hl = rw (h.0.1) (read_lines-page lines h.1 hl)
  read_lines-page (metric (name, [], value) ∷ lines) h hl = absurd h.0
  read_lines-page (metric (name, l ∷ ls, value) ∷ lines) ((first, brace, _, _, _), h) (labels, hl) =
      rw
        (read_sample-sample is_print name l ls value first brace labels, read_lines-page lines h hl)
        refl
  read_lines-page (bare name value ∷ lines) ((_, read), h) (labels, hl) =
      rw (read, read_lines-page lines h hl) refl

  -- Prometheus reads from a page of well-formed lines the samples, in their order.
  pub scrape-page :
      (lines : List Line)
      → All IsWellFormed lines
      → All (HasLabels is_print) (samples lines)
      → scrape (page is_print lines) ≡ samples lines
  unfolding scrape
  scrape-page lines h hl = ap read_lines (split_on-page lines h) ∙ read_lines-page lines h hl
