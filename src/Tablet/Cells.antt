-- ===== src/Tablet/Cells.antt =====
-- What each operation on a tablet does to every cell.
use penn_cloud.Prelude.{
  Option-cases, inl, inr, Bytes, bytes_eq, bytes_eq_iff, bytes_eq_refl, ◌≡◌, refl, none, some, [],
  ◌∷◌, true, ◌&&◌, arith, if◌then◌else◌,
}
use penn_cloud.Map.{lookup, insert, erase, is_empty, lookup-insert, lookup-erase}
use penn_cloud.Tablet.{
  cput, stored, Row, Tablet, row_of, cell, value, get, put, stored, cput, delete,
}

-- A row without columns has no value anywhere.
lookup-is_empty : (c : Bytes) (row : Row) → is_empty row ≡ true → lookup c row ≡ none
unfolding lookup
lookup-is_empty c [] e = refl
lookup-is_empty c (x ∷ row) e = cc

-- Writing a row that has one more value changes that cell only.
pub cell-insert :
    (r c r' c' : Bytes) (v : Bytes) (t : Tablet)
    → cell r' c' (insert r (insert c v (row_of r t)) t)
      ≡ (if bytes_eq r r' && bytes_eq c c' then some v else cell r' c' t)
unfolding cell row_of lookup
cell-insert r c r' c' v t = ground (
  arith,
  bytes_eq_iff r r',
  lookup-insert r r' (insert c v (row_of r t)) t,
  lookup-insert c c' v (row_of r t),
)

pub cell-put :
    (r c r' c' : Bytes) (v : Bytes) (t : Tablet)
    → cell r' c' (put r c v t) ≡ (if bytes_eq r r' && bytes_eq c c' then some v else cell r' c' t)
unfolding cell row_of lookup put
cell-put r c r' c' v t = ground (
  arith,
  bytes_eq_iff r r',
  bytes_eq_refl r,
  lookup-insert r r' [] t,
  lookup-insert r r [] t,
  lookup-insert r r' (insert c v (row_of r t)) t,
  lookup-insert r r' (insert c v []) (insert r [] t),
  lookup-insert c c' v (row_of r t),
  lookup-insert c c' v [],
)

pub cell-delete :
    (r c r' c' : Bytes) (t : Tablet)
    → cell r' c' (delete r c t) ≡ (if bytes_eq r r' && bytes_eq c c' then none else cell r' c' t)
unfolding cell row_of delete
cell-delete r c r' c' t = ground (
  arith,
  bytes_eq_iff r r',
  bytes_eq_iff c c',
  lookup-erase r r' t,
  lookup-insert r r' (erase c (row_of r t)) t,
  lookup-erase c c' (row_of r t),
  lookup-is_empty c' (erase c (row_of r t)),
)

-- GET reads the cell; the two ways to miss it are the same to a client of `cell`.
pub cell-get :
    (r c : Bytes) (t : Tablet) → cell r c t ≡ elim (get r c t) [ value v ↦ some v | _ ↦ none ]
unfolding cell get
cell-get r c t = ground arith

-- Where the cell holds the expected value, a CPUT stores what a PUT would.
pub cput-cell :
    (r c current new : Bytes) (t : Tablet)
    → cell r c t ≡ some current
    → cput r c current new t ≡ stored (put r c new t)
unfolding cell cput row_of put
cput-cell r c current new t e = ground (arith, bytes_eq_refl current)

-- Where a CPUT stores, the cell held the expected value, and a PUT would store the same.
pub cput-stored :
    (r c current new : Bytes) (t u : Tablet)
    → cput r c current new t ≡ stored u
    → (u ≡ put r c new t) × (cell r c t ≡ some current)
unfolding cput row_of put cell
cput-stored r c current new t u e = elim (Option-cases (lookup r t)) [
  | inl p ↦ ground arith
  | inr (row, p) ↦ elim (Option-cases (lookup c row)) [
    | inl q ↦ ground arith
    | inr (v, q) ↦ ground (arith, bytes_eq_iff v current)
  ]
]
