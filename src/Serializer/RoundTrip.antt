-- ===== src/Serializer/RoundTrip.antt =====
-- A serialized tablet is read back whole.
use penn_cloud.Prelude.{
  ℕ, suc, ◌<◌, ◌^◌, Bytes, bytes_eq, bytes_eq_iff, bytes_eq_refl, ◌≡◌, refl, ap, ◌∙◌, none, some,
  true, false, [], ◌∷◌, ◌++◌, append_assoc, append-nil, length, arith,
}
use penn_cloud.Map.{Map, lookup, insert, IsDistinct}
use penn_cloud.Tablet.{Row, Tablet, row_of}
use penn_cloud.Tablet.Form.{IsFormed, AllRows, IsRow}
use penn_cloud.Wire.{write_u32, write_string, Fits, read_u32-write_u32, read_string-write_string}
use penn_cloud.Serializer.{
  write_cols, write_rows, serialize_tablet, set_cell, read_cols, after_cols, read_rows,
  deserialize_tablet,
}

-- Every size that is written fits in 32 bits.
abbrev pub FitsCols : Row → Type 0
FitsCols [] = Unit
FitsCols ((c, v) ∷ row) = Fits c × Fits v × FitsCols row

abbrev pub FitsRows : Tablet → Type 0
FitsRows [] = Unit
FitsRows ((r, row) ∷ t) = Fits r × (length row < 2 ^ 32) × FitsCols row × FitsRows t

abbrev pub FitsTablet : Tablet → Type 0
FitsTablet t = (length t < 2 ^ 32) × FitsRows t

module _ {ℓ} {V : Type ℓ} where
  -- In a map with distinct keys a key is not found before its place.
  lookup-before :
      (k : Bytes) (v : V) (m m' : Map V) → IsDistinct (m ++ (k, v) ∷ m') → lookup k m ≡ none
  unfolding lookup
  lookup-before k v [] m' d = refl
  lookup-before k v ((j, w) ∷ m) m' d =
      ground (arith, bytes_eq_iff j k, differs m d.0, lookup-before k v m m' d.1)
    where
      differs : (n : Map V) → lookup j (n ++ (k, v) ∷ m') ≡ none → bytes_eq k j ≡ false
      differs [] e = ground arith
      differs ((i, x) ∷ n) e = ground (arith, differs n)

  insert-last :
      (k : Bytes) (v w : V) (m : Map V)
      → lookup k m ≡ none
      → (insert k v m ≡ m ++ (k, v) ∷ []) × (insert k v (m ++ (k, w) ∷ []) ≡ m ++ (k, v) ∷ [])
  unfolding insert lookup
  insert-last k v w [] e = ground (arith, bytes_eq_refl k)
  insert-last k v w ((j, x) ∷ m) e = ground (arith, insert-last k v w m)

  lookup-last :
      (k : Bytes) (v : V) (m : Map V) → lookup k m ≡ none → lookup k (m ++ (k, v) ∷ []) ≡ some v
  unfolding lookup
  lookup-last k v [] e = ground (arith, bytes_eq_refl k)
  lookup-last k v ((j, x) ∷ m) e = ground (arith, lookup-last k v m)

-- The first column of a new row, and each further one, go to the end.
set_cell-new :
    (r c v : Bytes) (t : Tablet) → lookup r t ≡ none → set_cell r c v t ≡ t ++ (r, (c, v) ∷ []) ∷ []
unfolding set_cell row_of insert
set_cell-new r c v t e = rw (e, row_of) (insert-last r ((c, v) ∷ []) [] t e).0

set_cell-last :
    (r c v : Bytes) (done : Row) (t : Tablet)
    → lookup r t ≡ none
    → lookup c done ≡ none
    → set_cell r c v (t ++ (r, done) ∷ []) ≡ t ++ (r, done ++ (c, v) ∷ []) ∷ []
unfolding set_cell row_of
set_cell-last r c v done t e f =
    rw (lookup-last r done t e, row_of, (insert-last c v [] done f).0)
      (insert-last r (done ++ (c, v) ∷ []) done t e).1

-- One round of the inner loop.
read_cols_step :
    (n : ℕ) (r c v : Bytes) (cs : Row) (t : Tablet) (rest : Bytes)
    → Fits c
    → Fits v
    → read_cols (suc n) r t (write_cols ((c, v) ∷ cs) ++ rest)
      ≡ read_cols n r (set_cell r c v t) (write_cols cs ++ rest)
unfolding read_cols write_cols
read_cols_step n r c v cs t rest fc fv =
    rw (append_assoc (write_string c) (write_string v ++ write_cols cs) rest) (
      rw (read_string-write_string c ((write_string v ++ write_cols cs) ++ rest) fc, read_cols)
        (rw (append_assoc (write_string v) (write_cols cs) rest)
          (rw (read_string-write_string v (write_cols cs ++ rest) fv))))

read_cols_more :
    (r : Bytes) (done cs : Row) (t : Tablet) (rest : Bytes)
    → lookup r t ≡ none
    → IsDistinct (done ++ cs)
    → FitsCols cs
    → read_cols (length cs) r (t ++ (r, done) ∷ []) (write_cols cs ++ rest)
      ≡ (t ++ (r, done ++ cs) ∷ [], some rest)
unfolding write_cols read_cols
read_cols_more r done [] t rest e d f = rw (append-nil done)
read_cols_more r done ((c, v) ∷ cs) t rest e d (fc, fv, f) =
    read_cols_step (length cs) r c v cs (t ++ (r, done) ∷ []) rest fc fv
    ∙ ap (λ u. read_cols (length cs) r u (write_cols cs ++ rest))
        (set_cell-last r c v done t e (lookup-before c v done cs d))
    ∙ read_cols_more r (done ++ (c, v) ∷ []) cs t rest e (rw (append_assoc done ((c, v) ∷ []) cs) d)
        f
    ∙ ap (λ (row : Row). (t ++ (r, row) ∷ [], some rest)) (append_assoc done ((c, v) ∷ []) cs)

read_cols_row :
    (r : Bytes) (row : Row) (t : Tablet) (rest : Bytes)
    → lookup r t ≡ none
    → IsRow row
    → FitsCols row
    → read_cols (length row) r t (write_cols row ++ rest) ≡ (t ++ (r, row) ∷ [], some rest)
unfolding write_cols
read_cols_row r [] t rest e h f = cc
read_cols_row r ((c, v) ∷ cs) t rest e h (fc, fv, f) =
    read_cols_step (length cs) r c v cs t rest fc fv
    ∙ ap (λ u. read_cols (length cs) r u (write_cols cs ++ rest)) (set_cell-new r c v t e)
    ∙ read_cols_more r ((c, v) ∷ []) cs t rest e h.1 f

-- One round of the outer loop.
read_rows_step :
    (n : ℕ) (r : Bytes) (row : Row) (t u : Tablet)
    → lookup r u ≡ none
    → IsRow row
    → Fits r
    → length row < 2 ^ 32
    → FitsCols row
    → read_rows (suc n) u (write_rows ((r, row) ∷ t))
      ≡ read_rows n (u ++ (r, row) ∷ []) (write_rows t)
unfolding read_rows write_rows after_cols
read_rows_step n r row t u e h fr fn f =
    rw
      (
        read_string-write_string r (write_u32 (length row) ++ (write_cols row ++ write_rows t)) fr,
        read_rows,
      )
      (rw (read_u32-write_u32 (length row) (write_cols row ++ write_rows t) fn)
        (rw (read_cols_row r row u (write_rows t) e h f)))

read_rows_all :
    (t u : Tablet)
    → IsDistinct (u ++ t)
    → AllRows t
    → FitsRows t
    → read_rows (length t) u (write_rows t) ≡ (u ++ t, true)
unfolding read_rows
read_rows_all [] u d a f = rw (append-nil u)
read_rows_all ((r, row) ∷ t) u d a (fr, fn, fc, f) =
    read_rows_step (length t) r row t u (lookup-before r row u t d) a.0 fr fn fc
    ∙ read_rows_all t (u ++ (r, row) ∷ []) (rw (append_assoc u ((r, row) ∷ []) t) d) a.1 f
    ∙ ap (λ (w : Tablet). (w, true)) (append_assoc u ((r, row) ∷ []) t)

-- A tablet with distinct keys, without empty rows and with sizes below 2^32 is read back exactly as
-- it was written, in whatever order the maps were iterated.
pub deserialize_tablet-serialize_tablet :
    (t : Tablet)
    → IsFormed t
    → FitsTablet t
    → deserialize_tablet [] (serialize_tablet t) ≡ (t, true)
unfolding deserialize_tablet serialize_tablet write_u32
deserialize_tablet-serialize_tablet t h (fn, f) =
    rw (read_u32-write_u32 (length t) (write_rows t) fn, deserialize_tablet)
      (read_rows_all t [] h.distinct h.rows f)
