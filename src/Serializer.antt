-- ===== src/Serializer.antt =====
-- serializeTablet and deserializeTablet of utils/serializer.cc. A tablet stands in the order in
-- which the maps are iterated, which the standard library leaves open.
pub mod RoundTrip
pub mod Short
use penn_cloud.Prelude.{
  ℕ, zero, suc, Bytes, Option, none, some, Bool, true, false, [], ◌∷◌, ◌++◌, length,
}
use penn_cloud.Map.{insert}
use penn_cloud.Tablet.{Row, Tablet, row_of}
use penn_cloud.Wire.{write_u32, read_u32, write_string, read_string}

write_cols : Row → Bytes
write_cols [] = []
write_cols ((c, v) ∷ row) = write_string c ++ (write_string v ++ write_cols row)

write_rows : Tablet → Bytes
write_rows [] = []
write_rows ((r, row) ∷ t) =
    write_string r ++ (write_u32 (length row) ++ (write_cols row ++ write_rows t))

unfoldable pub serialize_tablet : Tablet → Bytes
unfolding write_cols write_rows
serialize_tablet t = write_u32 (length t) ++ write_rows t

-- `table[row][col] = val`
set_cell : Bytes → Bytes → Bytes → Tablet → Tablet
unfolding row_of
set_cell r c v t = insert r (insert c v (row_of r t)) t

-- The inner loop. What was read before a failure stays in the table; `none` is `return false`.
read_cols : ℕ → Bytes → Tablet → Bytes → Tablet × Option Bytes
read_cols zero r t b = (t, some b)
read_cols (suc n) r t b = elim (read_string b) [
  | none ↦ (t, none)
  | some (c, b') ↦ elim (read_string b') [
    | none ↦ (t, none)
    | some (v, rest) ↦ read_cols n r (set_cell r c v t) rest
  ]
]

-- `return false` inside the inner loop, or the next round of the outer one.
after_cols : (Tablet → Bytes → Tablet × Bool) → Tablet × Option Bytes → Tablet × Bool
after_cols next (t, none) = (t, false)
after_cols next (t, some b) = next t b

-- The outer loop.
read_rows : ℕ → Tablet → Bytes → Tablet × Bool
read_rows zero t b = (t, true)
read_rows (suc n) t b = elim (read_string b) [
  | none ↦ (t, false)
  | some (r, b') ↦ elim (read_u32 b') [
    | none ↦ (t, false)
    | some (k, rest) ↦ after_cols (read_rows n) (read_cols k r t rest)
  ]
]

unfoldable pub deserialize_tablet : Tablet → Bytes → Tablet × Bool
unfolding set_cell read_cols after_cols read_rows
deserialize_tablet t [] = (t, true)
deserialize_tablet t (x ∷ b) = elim (read_u32 (x ∷ b)) [
  | none ↦ (t, false)
  | some (n, rest) ↦ read_rows n t rest
]
