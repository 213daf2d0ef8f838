-- ===== src/Serializer/Short.antt =====
-- Texts that are too short to be a tablet.
use penn_cloud.Prelude.{ℕ, zero, suc, ◌+◌, ◌*◌, Bytes, ◌≡◌, refl, none, ◌∷◌}
use penn_cloud.Tablet.{Tablet}
use penn_cloud.Wire.{read_u32, read_string}
use penn_cloud.Serializer.{read_rows, deserialize_tablet}

read_rows-short : (n : ℕ) (t : Tablet) (b : Bytes) → read_string b ≡ none → (read_rows n t b).0 ≡ t
unfolding read_rows
read_rows-short zero t b e = refl
read_rows-short (suc n) t b e = rw (e, read_rows)

-- A text whose first string is cut off adds nothing to a tablet.
pub deserialize-short :
    (a b c d : ℕ) (t : Tablet) (rest : Bytes)
    → read_string rest ≡ none
    → (deserialize_tablet t (a ∷ b ∷ c ∷ d ∷ rest)).0 ≡ t
unfolding deserialize_tablet read_u32
deserialize-short a b c d t rest e =
    read_rows-short (a + b * 256 + c * 65536 + d * 16777216) t rest e
