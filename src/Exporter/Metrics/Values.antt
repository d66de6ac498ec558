-- ===== src/Exporter/Metrics/Values.antt =====
-- The values of labels are read back from what %q prints.
use for_visibility.Prelude.{
  ℕ, zero, suc, ◌≤◌, ◌≡◌, refl, sym, ap, ◌∙◌, Bool, true, false, ◌&&◌, ◌||◌, Option, none, some, [],
  ◌∷◌, ◌++◌, append_assoc, leb, ltb, ◌==◌, length, length-append, arith, All, subst, drop-append,
  le→ltb, ==_ne,
}
use for_visibility.Text.{Bytes}
use for_visibility.Exporter.Metrics.Reader.{put_byte, read_value}
use for_visibility.Text.Quote.{Rune, decode_rune, quote_rune, quote_ascii, quote_loop, quote}

-- a printable ASCII byte, or a newline
abbrev pub IsPlain : ℕ → Type 0
IsPlain c = (leb 32 c && leb c 126 || c == 10) ≡ true

read_value-quote_ascii :
    (c : ℕ) (s : Bytes)
    → IsPlain c
    → read_value false (quote_ascii c ++ s) ≡ put_byte c (read_value false s)
unfolding read_value quote_ascii
read_value-quote_ascii c s h = ground arith

abbrev pub all_plain : Bytes → Bool
all_plain [] = true
all_plain (c ∷ s) = (leb 32 c && leb c 126 || c == 10) && all_plain s

abbrev pub put_bytes : Bytes → Option (Bytes × Bytes) → Option (Bytes × Bytes)
put_bytes t none = none
put_bytes t (some (v, s)) = some (t ++ v, s)

put_bytes-cons :
    (c : ℕ) (t : Bytes) (o : Option (Bytes × Bytes))
    → put_byte c (put_bytes t o) ≡ put_bytes (c ∷ t) o
put_bytes-cons c t none = refl
put_bytes-cons c t (some o) = refl

put_bytes-nil : (o : Option (Bytes × Bytes)) → o ≡ put_bytes [] o
put_bytes-nil none = refl
put_bytes-nil (some o) = refl

-- the bytes of wide runes stand for themselves
read_value-high :
    (t s : Bytes)
    → All (λ (c : ℕ). 128 ≤ c) t
    → read_value false (t ++ s) ≡ put_bytes t (read_value false s)
unfolding read_value
read_value-high [] s h = put_bytes-nil (read_value false s)
read_value-high (c ∷ t) s h =
    rw
      (
        ==_ne c 34 (λ e. omega (arith, h.0)),
        ==_ne c 92 (λ e. omega (arith, h.0)),
        read_value-high t s h.1,
      )
      (put_bytes-cons c t (read_value false s))

shorter : (a : ℕ) (t s : Bytes) (fuel : ℕ) → length (a ∷ t ++ s) ≤ suc fuel → length s ≤ fuel
shorter a t s fuel h = omega (arith, length-append t s)

module _ (is_print : ℕ → Bool) where
  quote_loop-plain :
      (fuel c : ℕ) (s : Bytes)
      → IsPlain c
      → quote_loop is_print (suc fuel) (c ∷ s) ≡ quote_ascii c ++ quote_loop is_print fuel s
  unfolding quote_loop
  quote_loop-plain fuel c s h = rw (small) refl
    where
      small : ltb c 128 ≡ true
      small = ground arith

  -- Valid text of printable runes and newlines.
  pub data IsReadable : Bytes → Type 0 where
    done : IsReadable []
    ascii : {c : ℕ} {s : Bytes} → IsPlain c → IsReadable s → IsReadable (c ∷ s)
    wide :
        {a : ℕ} {s : Bytes} (t : Bytes) (r : Rune)
        → All (λ (c : ℕ). 128 ≤ c) (a ∷ t)
        → ((after : Bytes) → decode_rune a (t ++ after) ≡ some r)
        → r.encoded ≡ a ∷ t
        → is_print r.code ≡ true
        → IsReadable s
        → IsReadable (a ∷ t ++ s)

  pub append-IsReadable : {p s : Bytes} → IsReadable p → IsReadable s → IsReadable (p ++ s)
  append-IsReadable done hs = hs
  append-IsReadable (ascii plain h) hs = ascii plain (append-IsReadable h hs)
  append-IsReadable {s = q} (wide {a} {s} t r high rune encoded printed h) hs =
      subst IsReadable (sym (append_assoc (a ∷ t) s q))
        (wide t r high rune encoded printed (append-IsReadable h hs))

  pub plain-IsReadable : (s : Bytes) → all_plain s ≡ true → IsReadable s
  plain-IsReadable [] h = done
  plain-IsReadable (c ∷ s) h = ascii (ground arith) (plain-IsReadable s (ground arith))

  quote_loop-wide :
      (fuel a : ℕ) (t s : Bytes) (r : Rune)
      → 128 ≤ a
      → decode_rune a (t ++ s) ≡ some r
      → r.encoded ≡ a ∷ t
      → is_print r.code ≡ true
      → quote_loop is_print (suc fuel) (a ∷ t ++ s) ≡ a ∷ t ++ quote_loop is_print fuel s
  unfolding quote_loop quote_rune
  quote_loop-wide fuel a t s r h rune encoded printed =
      rw (le→ltb a 128 h, rune, printed, encoded, drop-append (a ∷ t) s) refl

  read_value-quote_loop :
      (fuel : ℕ) {s : Bytes} (rest : Bytes)
      → IsReadable s
      → length s ≤ fuel
      → read_value false (quote_loop is_print fuel s ++ 34 ∷ rest) ≡ some (s, rest)
  unfolding read_value quote_loop
  read_value-quote_loop zero rest done few = refl
  read_value-quote_loop (suc fuel) rest done few = refl
  read_value-quote_loop zero rest (ascii plain h) few = absurd (omega arith)
  read_value-quote_loop (suc fuel) rest (ascii {c} {s} plain h) few =
      rw
        (
          quote_loop-plain fuel c s plain,
          append_assoc (quote_ascii c) (quote_loop is_print fuel s) (34 ∷ rest),
          read_value-quote_ascii c (quote_loop is_print fuel s ++ 34 ∷ rest) plain,
          read_value-quote_loop fuel rest h (omega arith),
        )
        refl
  read_value-quote_loop zero rest (wide t r high rune encoded printed h) few = absurd (omega arith)
  read_value-quote_loop (suc fuel) rest (wide {a} {s} t r high rune encoded printed h) few =
      ap (λ q. read_value false (q ++ 34 ∷ rest))
        (quote_loop-wide fuel a t s r high.0 (rune s) encoded printed)
      ∙ ap (read_value false) (append_assoc (a ∷ t) (quote_loop is_print fuel s) (34 ∷ rest))
      ∙ read_value-high (a ∷ t) (quote_loop is_print fuel s ++ 34 ∷ rest) high
      ∙ ap (put_bytes (a ∷ t)) (read_value-quote_loop fuel rest h (shorter a t s fuel few))

  -- behind the opening quote
  pub read_value-quote :
      (s rest : Bytes)
      → IsReadable s
      → (t : Bytes) × (quote is_print s ++ rest ≡ 34 ∷ t) × (read_value false t ≡ some (s, rest))
  unfolding quote
  read_value-quote s rest h = (
    _,
    ap (λ t. 34 ∷ t) (append_assoc (quote_loop is_print (length s) s) (34 ∷ []) rest),
    read_value-quote_loop (length s) rest h (omega arith),
  )
