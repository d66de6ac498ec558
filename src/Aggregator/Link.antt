-- ===== src/Aggregator/Link.antt =====
-- `linkKey`, with `strings.Index`, `strings.Fields` of ASCII text and `strings.SplitN` in two parts.
use for_visibility.Prelude.{
  ℕ, suc, Option, none, some, List, [], ◌∷◌, ◌++◌, if◌then◌else◌, take, drop,
}
use for_visibility.Text.{Bytes, text, bytes_ltb}
use for_visibility.Text.Split.{has_prefix, index_byte, is_space}

-- strings.Index(s, sub); `none` is -1
unfoldable pub index_of : Bytes → Bytes → Option ℕ
unfolding has_prefix
index_of [] sub = if has_prefix [] sub then some 0 else none
index_of (x ∷ s) sub =
    let rest = index_of s sub in
    if has_prefix (x ∷ s) sub then some 0 else elim rest [ none ↦ none | some i ↦ some (suc i) ]

abbrev pub keep_word : Bytes → List Bytes → List Bytes
keep_word [] ws = ws
keep_word (c ∷ w) ws = (c ∷ w) ∷ ws

-- the word that the text begins with, which may be empty, and the words behind it
unfoldable pub words : Bytes → Bytes × List Bytes
words [] = ([], [])
words (x ∷ s) = let (w, ws) = words s in if is_space x then ([], keep_word w ws) else (x ∷ w, ws)

-- strings.Fields
unfoldable pub fields : Bytes → List Bytes
unfolding words
fields s = let (w, ws) = words s in keep_word w ws

-- the two ends, the smaller first, with "--" between them
unfoldable pub ends_key : Bytes → Bytes → Bytes
unfolding bytes_ltb
ends_key a b = if bytes_ltb b a then b ++ text "--" ++ a else a ++ text "--" ++ b

-- of an interface "a-b"
unfoldable pub iface_key : Bytes → Bytes
unfolding index_byte ends_key
iface_key iface = elim (index_byte 45 iface) [
  | none ↦ []
  | some i ↦ ends_key (take i iface) (drop (suc i) iface)
]

-- the second word, if there are two
abbrev pub second_key : List Bytes → Bytes
second_key (w ∷ iface ∷ ws) = iface_key iface
second_key _ = []

-- linkKey: of a root "netlink/link-down a-b"
unfoldable pub link_key : Bytes → Bytes
unfolding index_of fields iface_key text
link_key root = elim (index_of root (text "link-")) [
  | none ↦ []
  | some i ↦ second_key (fields (drop i root))
]
