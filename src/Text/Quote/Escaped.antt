-- ===== src/Text/Quote/Escaped.antt =====
-- What `quote` writes stays on one line, and can be read back.
use for_visibility.Prelude.{
  ℕ, zero, suc, ◌/◌, ◌%◌, ◌≤◌, ◌≡◌, refl, ◌∙◌, Bool, false, some, [], ◌∷◌, ◌++◌, ltb, if-cases,
  length, drop, arith, inl, inr, Option-cases,
}
use for_visibility.Text.{Bytes}
use for_visibility.Text.Split.{has_byte, has_byte-append}
use for_visibility.Text.Quote.{
  Rune, two_bytes, three_bytes, four_bytes, decode_rune, hex_digit, hex, hex_byte, quote_ascii,
  quote_rune, quote_loop, quote,
}

abbrev pub IsLine : Bytes → Type 0
IsLine s = has_byte 10 s ≡ false

pub append-IsLine : (p s : Bytes) → IsLine p → IsLine s → IsLine (p ++ s)
append-IsLine p s hp hs = has_byte-append 10 p s ∙ ground (arith, hp, hs)

hex-IsLine : (n c : ℕ) → IsLine (hex n c)
unfolding has_byte
hex-IsLine zero c = refl
hex-IsLine (suc n) c =
    append-IsLine (hex n (c / 16)) (hex_digit (c % 16) ∷ []) (hex-IsLine n (c / 16)) (ground arith)

quote_ascii-IsLine : (c : ℕ) → IsLine (quote_ascii c)
unfolding quote_ascii has_byte
quote_ascii-IsLine c = ground (arith, hex-IsLine 2 c)

-- the encoding of a rune has no newline
two_bytes-IsLine :
    (a : ℕ) (s : Bytes) (r : Rune) → 128 ≤ a → two_bytes a s ≡ some r → IsLine r.encoded
unfolding has_byte
two_bytes-IsLine a (b ∷ s) r h e = ground arith
two_bytes-IsLine a [] r h e = ground arith

three_bytes-IsLine :
    (a : ℕ) (s : Bytes) (r : Rune) → 128 ≤ a → three_bytes a s ≡ some r → IsLine r.encoded
unfolding has_byte
three_bytes-IsLine a (b ∷ c ∷ s) r h e = ground arith
three_bytes-IsLine a (b ∷ []) r h e = ground arith
three_bytes-IsLine a [] r h e = ground arith

four_bytes-IsLine :
    (a : ℕ) (s : Bytes) (r : Rune) → 128 ≤ a → four_bytes a s ≡ some r → IsLine r.encoded
unfolding has_byte
four_bytes-IsLine a (b ∷ c ∷ d ∷ s) r h e = ground arith
four_bytes-IsLine a (b ∷ c ∷ []) r h e = ground arith
four_bytes-IsLine a (b ∷ []) r h e = ground arith
four_bytes-IsLine a [] r h e = ground arith

decode_rune-IsLine :
    (a : ℕ) (s : Bytes) (r : Rune) → 128 ≤ a → decode_rune a s ≡ some r → IsLine r.encoded
unfolding decode_rune
decode_rune-IsLine a s r h e =
    ground (arith, two_bytes-IsLine a s r h, three_bytes-IsLine a s r h, four_bytes-IsLine a s r h)

module _ (is_print : ℕ → Bool) where
  quote_rune-IsLine : (r : Rune) → IsLine r.encoded → IsLine (quote_rune is_print r)
  unfolding quote_rune has_byte
  quote_rune-IsLine r h = ground (arith, hex-IsLine 4 r.code, hex-IsLine 8 r.code)

  quote_loop-IsLine : (fuel : ℕ) (s : Bytes) → IsLine (quote_loop is_print fuel s)
  unfolding quote_loop has_byte
  quote_loop-IsLine zero s = refl
  quote_loop-IsLine (suc fuel) [] = refl
  quote_loop-IsLine (suc fuel) (c ∷ s) =
      if-cases IsLine (ltb c 128) _ _
        (λ ascii. append-IsLine (quote_ascii c) _ (quote_ascii-IsLine c) (quote_loop-IsLine fuel s))
        (λ wide. elim (Option-cases (decode_rune c s)) [
          | inl bad ↦ rw (bad) (
              append-IsLine (hex_byte c) (quote_loop is_print fuel s) (hex-IsLine 2 c)
                (quote_loop-IsLine fuel s))
          | inr (r, good) ↦ rw (good) (
              append-IsLine (quote_rune is_print r) _
                (quote_rune-IsLine r (decode_rune-IsLine c s r (ground arith) good))
                (quote_loop-IsLine fuel (drop (length r.encoded) (c ∷ s))))
        ])

  -- What %q prints has no newline, whatever it quotes.
  pub quote-IsLine : (s : Bytes) → IsLine (quote is_print s)
  unfolding quote has_byte
  quote-IsLine s =
      append-IsLine (34 ∷ quote_loop is_print (length s) s) (34 ∷ [])
        (quote_loop-IsLine (length s) s) refl
