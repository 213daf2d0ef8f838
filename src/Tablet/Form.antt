-- ===== src/Tablet/Form.antt =====
-- The shape that the operations keep: distinct rows and columns, and no row without a column.
use penn_cloud.Prelude.{
  Bytes, bytes_eq_refl, ◌≡◌, refl, some, [], ◌∷◌, false, arith, Option-cases, inl, inr,
}
use penn_cloud.Map.{
  Map, lookup, insert, erase, is_empty, lookup-insert, IsDistinct, insert-IsDistinct,
  erase-IsDistinct,
}
use penn_cloud.Tablet.Cells.{cput-stored}
use penn_cloud.Tablet.{Row, Tablet, row_of, put, stored, cput, delete_from, delete}

abbrev pub IsRow : Row → Type 0
IsRow row = (is_empty row ≡ false) × IsDistinct row

abbrev pub AllRows : Tablet → Type 0
AllRows [] = Unit
AllRows ((r, row) ∷ t) = IsRow row × AllRows t

pub record IsFormed (t : Tablet) : Type 0 where
  pub distinct : IsDistinct t
  pub rows : AllRows t

insert-AllRows :
    (r : Bytes) (row : Row) (t : Tablet) → IsRow row → AllRows t → AllRows (insert r row t)
unfolding insert
insert-AllRows r row [] h a = (h, tt)
insert-AllRows r row ((q, row') ∷ t) h a = ground (arith, insert-AllRows r row t h a.1)

erase-AllRows : (r : Bytes) (t : Tablet) → AllRows t → AllRows (erase r t)
unfolding erase
erase-AllRows r [] a = tt
erase-AllRows r ((q, row') ∷ t) a = ground (arith, erase-AllRows r t a.1)

lookup-AllRows :
    (r : Bytes) (t : Tablet) (row : Row) → AllRows t → lookup r t ≡ some row → IsRow row
unfolding lookup
lookup-AllRows r [] row a e = cc
lookup-AllRows r ((q, row') ∷ t) row a e = ground (arith, lookup-AllRows r t row a.1)

-- The empty row that a PUT starts from is no exception: only distinctness is needed of it.
row_of-IsDistinct : (r : Bytes) (t : Tablet) → AllRows t → IsDistinct (row_of r t)
unfolding row_of
row_of-IsDistinct r t a = elim (Option-cases (lookup r t)) [
  | inl e ↦ rw (e, row_of, IsDistinct) tt
  | inr (row, e) ↦ rw (e, row_of, IsDistinct) (lookup-AllRows r t row a e).1
]

-- Writing a key twice keeps the second value.
insert-insert {ℓ} :
    {V : Type ℓ} (k : Bytes) (v w : V) (m : Map V) → insert k w (insert k v m) ≡ insert k w m
unfolding insert
insert-insert k v w [] = ground (arith, bytes_eq_refl k)
insert-insert k v w ((j, x) ∷ m) = ground (arith, bytes_eq_refl k, insert-insert k v w m)

insert-not_empty {ℓ} :
    {V : Type ℓ} (k : Bytes) (v : V) (m : Map V) → is_empty (insert k v m) ≡ false
unfolding insert
insert-not_empty k v [] = refl
insert-not_empty k v ((j, w) ∷ m) = ground arith

-- The row of a `PUT` after its missing row was added, in one step.
pub put-insert : (r c v : Bytes) (t : Tablet) → put r c v t ≡ insert r (insert c v (row_of r t)) t
unfolding put row_of
put-insert r c v t =
    ground (arith, lookup-insert r r [] t, bytes_eq_refl r, insert-insert r [] (insert c v []) t)

pub put-IsFormed : (r c v : Bytes) (t : Tablet) → IsFormed t → IsFormed (put r c v t)
put-IsFormed r c v t f = rw put-insert (record {
  distinct = insert-IsDistinct r _ t f.distinct;
  rows =
      insert-AllRows r _ t
        (insert-not_empty c v _, insert-IsDistinct c v _ (row_of-IsDistinct r t f.rows)) f.rows;
})

delete_from-IsFormed :
    (r c : Bytes) (row : Row) (t : Tablet)
    → IsDistinct row
    → IsFormed t
    → IsFormed (delete_from r c row t)
unfolding delete_from
delete_from-IsFormed r c row t d f = ground (
  arith,
  erase-IsDistinct c row d,
  insert-IsDistinct r (erase c row) t f.distinct,
  erase-IsDistinct r t f.distinct,
  insert-AllRows r (erase c row) t,
  erase-AllRows r t f.rows,
)

pub delete-IsFormed : (r c : Bytes) (t : Tablet) → IsFormed t → IsFormed (delete r c t)
unfolding delete
delete-IsFormed r c t f = elim (Option-cases (lookup r t)) [
  | inl e ↦ rw (e, delete) f
  | inr (row, e) ↦
      rw (e, delete) (delete_from-IsFormed r c row t (lookup-AllRows r t row f.rows e).1 f)
]

pub cput-IsFormed :
    (r c current new : Bytes) (t u : Tablet)
    → cput r c current new t ≡ stored u
    → IsFormed t
    → IsFormed u
cput-IsFormed r c current new t u e f =
    rw (cput-stored r c current new t u e).0 (put-IsFormed r c new t f)
