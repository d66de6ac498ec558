-- ===== src/Aggregator/Direction.antt =====
-- `linkKey` gives the events at both ends of a link the same key.
use for_visibility.Prelude.{
  ℕ, ◌≡◌, refl, sym, ap, ◌∙◌, Bool, true, false, Bool-cases, inl, inr, ◌||◌, some, List, [], ◌∷◌,
  ◌++◌, if◌then◌else◌, drop, arith,
}
use for_visibility.Text.{Bytes, text, bytes_beq, bytes_beq_iff, bytes_ltb-asym, bytes-trichotomy}
use for_visibility.Text.Split.{has_byte, index_byte-part, has_prefix, is_space}
use for_visibility.Aggregator.Link.{
  index_of, keep_word, words, fields, ends_key, iface_key, second_key, link_key,
}

unfoldable pub has_space : Bytes → Bool
has_space [] = false
has_space (x ∷ s) = is_space x || has_space s

words-plain : (s : Bytes) → has_space s ≡ false → words s ≡ (s, [])
unfolding words has_space
words-plain [] h = refl
words-plain (x ∷ s) h = ground (arith, words-plain s)

iface_key-ends : (a b : Bytes) → has_byte 45 a ≡ false → iface_key (a ++ 45 ∷ b) ≡ ends_key a b
unfolding iface_key
iface_key-ends a b h =
    let (i, at_i, before, after) = index_byte-part 45 a b h in
    rw (iface_key, at_i, before, after) refl

ends_key-sym : (a b : Bytes) → ends_key a b ≡ ends_key b a
unfolding ends_key
ends_key-sym a b = elim (Bool-cases (bytes_beq a b)) [
  | inl e ↦ rw ((bytes_beq_iff a b).0 e) refl
  | inr ne ↦
      (ground (
        arith,
        ne,
        bytes_beq_iff a b,
        bytes_beq_iff b a,
        bytes_ltb-asym a b,
        bytes_ltb-asym b a,
        bytes-trichotomy a b,
        bytes-trichotomy b a,
      ))
]

-- the text before the interface in the root of a link event
abbrev pub root_text : Bool → Bytes
root_text up = if up then text "netlink/link-up " else text "netlink/link-down "

-- the part of it from "link-" on, which is the first word
abbrev kind_text : Bool → Bytes
kind_text up = if up then text "link-up" else text "link-down"

root-index : (up : Bool) (s : Bytes) → index_of (root_text up ++ s) (text "link-") ≡ some 8
unfolding index_of has_prefix text
root-index true s = refl
root-index false s = refl

root-drop : (up : Bool) (s : Bytes) → drop 8 (root_text up ++ s) ≡ kind_text up ++ 32 ∷ s
unfolding text
root-drop true s = refl
root-drop false s = refl

kind-fields :
    (up : Bool) (s : Bytes)
    → fields (kind_text up ++ 32 ∷ s) ≡ kind_text up ∷ keep_word (words s).0 (words s).1
unfolding text fields words
kind-fields true s = refl
kind-fields false s = refl

link_key-drop :
    (root : Bytes) (i : ℕ)
    → index_of root (text "link-") ≡ some i
    → link_key root ≡ second_key (fields (drop i root))
unfolding link_key
link_key-drop root i e = rw (link_key, e) refl

link_key-root :
    (up : Bool) (c : ℕ) (iface : Bytes)
    → has_space (c ∷ iface) ≡ false
    → link_key (root_text up ++ c ∷ iface) ≡ iface_key (c ∷ iface)
link_key-root up c iface h =
    link_key-drop (root_text up ++ c ∷ iface) 8 (root-index up (c ∷ iface))
    ∙ ap (λ s. second_key (fields s)) (root-drop up (c ∷ iface))
    ∙ ap second_key (kind-fields up (c ∷ iface))
    ∙ ap (λ (ws : Bytes × List Bytes). second_key (kind_text up ∷ keep_word ws.0 ws.1))
        (words-plain (c ∷ iface) h)

link_key-iface :
    (up : Bool) (a b : Bytes)
    → has_byte 45 a ≡ false
    → has_space (a ++ 45 ∷ b) ≡ false
    → link_key (root_text up ++ (a ++ 45 ∷ b)) ≡ ends_key a b
link_key-iface up [] b plain word = link_key-root up 45 b word ∙ iface_key-ends [] b plain
link_key-iface up (c ∷ a) b plain word =
    link_key-root up c (a ++ 45 ∷ b) word ∙ iface_key-ends (c ∷ a) b plain

-- A link event on the interface "a-b" of one node and one on the interface "b-a" of the other have the
-- same link key, whether the link went up or down. The names have no dash and no space.
pub link_key-direction :
    (up up' : Bool) (a b : Bytes)
    → has_byte 45 a ≡ false
    → has_byte 45 b ≡ false
    → has_space (a ++ 45 ∷ b) ≡ false
    → has_space (b ++ 45 ∷ a) ≡ false
    → link_key (root_text up ++ (a ++ 45 ∷ b)) ≡ link_key (root_text up' ++ (b ++ 45 ∷ a))
link_key-direction up up' a b plain_a plain_b word word' =
    link_key-iface up a b plain_a word
    ∙ ends_key-sym a b
    ∙ sym (link_key-iface up' b a plain_b word')
