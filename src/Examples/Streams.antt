-- ===== src/Examples/Streams.antt =====
-- Attribute streams and label stacks, and FPM frames.
use for_visibility.Prelude.{◌≡◌, refl, [], ◌∷◌, ◌++◌, returns, panics, arith}
use for_visibility.Text.{text}
use for_visibility.Text.Decimal.{itoa}
use for_visibility.Attr.{Attr, for_each_attr, labels_csv}
use for_visibility.Attr.Walk.{encode, unpadded, for_each_attr-encode, for_each_attr-encode-unpadded}
use for_visibility.Attr.Labels.{StackEntry}

abbrev oif_attr : Attr
oif_attr = record { atype = 5; payload = 7 ∷ 0 ∷ 0 ∷ 0 ∷ [] }

-- one byte: padded by three
abbrev odd_attr : Attr
odd_attr = record { atype = 32776; payload = 9 ∷ [] }

for_each_attr-encode_example :
    for_each_attr (encode (oif_attr ∷ odd_attr ∷ []))
    ≡ returns (oif_attr ∷ record { atype = 8; payload = 9 ∷ [] } ∷ [])
for_each_attr-encode_example =
    for_each_attr-encode (oif_attr ∷ odd_attr ∷ [])
      ((omega arith, omega arith), ((omega arith, omega arith), tt))

for_each_attr-encode-unpadded_example :
    for_each_attr (encode (oif_attr ∷ []) ++ unpadded odd_attr) ≡ panics
for_each_attr-encode-unpadded_example =
    for_each_attr-encode-unpadded (oif_attr ∷ []) odd_attr ((omega arith, omega arith), tt)
      (omega arith, omega arith) (omega arith)

abbrev transport : StackEntry
transport = record { label = 18; traffic_class = 0; ttl = 0 }

abbrev service : StackEntry
service = record { label = 80; traffic_class = 3; ttl = 64 }

labels_csv-two : labels_csv (18 ∷ 80 ∷ []) ≡ text "18,80"
unfolding labels_csv itoa text
labels_csv-two = refl
