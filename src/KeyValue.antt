-- ===== src/KeyValue.antt =====
-- What the store promises: one map from a row and a column to a value, which each write changes
-- at once. The tablets of the workers are compared with it.
use penn_cloud.Prelude.{
  Bytes, bytes_eq, bytes_eq_iff, ◌≡◌, refl, ap, Option, none, some, Bool, true, false, ◌&&◌, arith,
  if◌then◌else◌, Bool-cases, ◌↔◌, ◌≢◌, inl, inr,
}
use penn_cloud.Tablet
use penn_cloud.Tablet.{Tablet, CputResult, row_missing, column_missing, value_differs, stored, cell}
use penn_cloud.Tablet.Cells.{cell-put, cell-delete, cput-cell, cput-stored}
use penn_cloud.Op.{Op, put, cput, delete, row, Applied, refused, applied, apply, apply_cput}

abbrev pub KeyValue : Type 0
KeyValue = Bytes → Bytes → Option Bytes

abbrev pub column : Op → Bytes
column (put r c v) = c
column (cput r c current new) = c
column (delete r c) = c

abbrev pub holds : Bytes → Option Bytes → Bool
holds current none = false
holds current (some v) = bytes_eq v current

-- A conditional write changes its cell only from the value that it expects.
unfoldable pub write : Op → KeyValue → KeyValue
write (put r c v) f r' c' = if bytes_eq r r' && bytes_eq c c' then some v else f r' c'
write (cput r c current new) f r' c' =
    if (bytes_eq r r' && bytes_eq c c') && holds current (f r c) then some new else f r' c'
write (delete r c) f r' c' = if bytes_eq r r' && bytes_eq c c' then none else f r' c'

-- The tablet after a handler, which keeps it where it refuses the write.
abbrev pub result : Tablet → Applied → Tablet
result t (refused code message) = t
result t (applied u) = u

holds-eq :
    (current : Bytes) (found : Option Bytes) → (holds current found ≡ true) ↔ (found ≡ some current)
holds-eq current none = (λ e. cc, λ e. cc)
holds-eq current (some v) =
    (λ e. ap some ((bytes_eq_iff v current).0 e), λ e. (bytes_eq_iff v current).1 (cc))

-- A CPUT that stores nothing did not find the value that it expects.
cput-not_held :
    (r c current new : Bytes) (t : Tablet)
    → ((u : Tablet) → Tablet.cput r c current new t ≢ stored u)
    → holds current (cell r c t) ≡ false
cput-not_held r c current new t never = elim (Bool-cases (holds current (cell r c t))) [
  | inl e ↦ absurd (never _ (cput-cell r c current new t ((holds-eq current (cell r c t)).0 e)))
  | inr e ↦ e
]

cput-write :
    (r c current new r' c' : Bytes) (t : Tablet) (answer : CputResult)
    → Tablet.cput r c current new t ≡ answer
    → cell r' c' (result t (apply_cput answer))
      ≡ write (cput r c current new) (λ a b. cell a b t) r' c'
unfolding write apply_cput
cput-write r c current new r' c' t (stored u) e =
    let (is_put, held) = cput-stored r c current new t u e in
    ground (arith, is_put, cell-put r c r' c' new t, (holds-eq current (cell r c t)).1 held)
cput-write r c current new r' c' t row_missing e =
    ground (arith, cput-not_held r c current new t (λ u h. cc))
cput-write r c current new r' c' t column_missing e =
    ground (arith, cput-not_held r c current new t (λ u h. cc))
cput-write r c current new r' c' t value_differs e =
    ground (arith, cput-not_held r c current new t (λ u h. cc))

-- On one tablet, a handler does what the map promises: every cell is what the write leaves in the
-- map of the cells.
pub cell-apply :
    (op : Op) (t : Tablet) (r c : Bytes)
    → cell r c (result t (apply op t)) ≡ write op (λ a b. cell a b t) r c
unfolding write apply
cell-apply (put r c v) t r' c' = cell-put r c r' c' v t
cell-apply (cput r c current new) t r' c' = cput-write r c current new r' c' t _ refl
cell-apply (delete r c) t r' c' = cell-delete r c r' c' t

-- A write reads no more than its own cell and the one that is asked for.
pub write-eq :
    (op : Op) (f g : KeyValue) (r c : Bytes)
    → f (row op) (column op) ≡ g (row op) (column op)
    → f r c ≡ g r c
    → write op f r c ≡ write op g r c
unfolding write
write-eq (put r c v) f g r' c' e h = ground arith
write-eq (cput r c current new) f g r' c' e h = ground arith
write-eq (delete r c) f g r' c' e h = ground arith

-- A write leaves the other rows alone.
pub write-row :
    (op : Op) (f : KeyValue) (r c : Bytes) → bytes_eq (row op) r ≡ false → write op f r c ≡ f r c
unfolding write
write-row (put r c v) f r' c' e = ground arith
write-row (cput r c current new) f r' c' e = ground arith
write-row (delete r c) f r' c' e = ground arith
