-- ===== src/Wire.antt =====
-- `binary.BigEndian` and `binary.LittleEndian` on a byte slice, and Go's slice expressions. A byte
-- is a number; the callers check the length before they read, as the source does.
use for_visibility.Prelude.{ℕ, ◌+◌, ◌*◌, ◌/◌, ◌%◌, ◌<◌, ◌-◌, [], ◌∷◌, get_or, take, drop}
use for_visibility.Text.{Bytes}

-- b[i], where `i < len(b)`
abbrev pub at : Bytes → ℕ → ℕ
at b i = get_or b i 0

-- b[i:j]
abbrev pub slice : ℕ → ℕ → Bytes → Bytes
slice i j b = take (j - i) (drop i b)

abbrev pub be16 : Bytes → ℕ → ℕ
be16 b i = at b i * 256 + at b (i + 1)

abbrev pub be32 : Bytes → ℕ → ℕ
be32 b i = at b i * 16777216 + at b (i + 1) * 65536 + at b (i + 2) * 256 + at b (i + 3)

abbrev pub le16 : Bytes → ℕ → ℕ
le16 b i = at b i + at b (i + 1) * 256

abbrev pub le32 : Bytes → ℕ → ℕ
le32 b i = at b i + at b (i + 1) * 256 + at b (i + 2) * 65536 + at b (i + 3) * 16777216

abbrev pub IsByte : ℕ → Type 0
IsByte b = b < 256

-- PutUint16 and PutUint32, for the encoders that the theorems compare with
abbrev pub put_be16 : ℕ → Bytes
put_be16 n = (n / 256 % 256) ∷ (n % 256) ∷ []

abbrev pub put_be32 : ℕ → Bytes
put_be32 n = (n / 16777216 % 256) ∷ (n / 65536 % 256) ∷ (n / 256 % 256) ∷ (n % 256) ∷ []

abbrev pub put_le16 : ℕ → Bytes
put_le16 n = (n % 256) ∷ (n / 256 % 256) ∷ []

abbrev pub put_le32 : ℕ → Bytes
put_le32 n = (n % 256) ∷ (n / 256 % 256) ∷ (n / 65536 % 256) ∷ (n / 16777216 % 256) ∷ []
