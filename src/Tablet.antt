-- ===== src/Tablet.antt =====
-- A tablet: `unordered_map<string, unordered_map<string, string>>`, and what the handlers of
-- backend/worker.cc, its log replay and backend/kvs_server.h do to it.
pub mod Cells
pub mod Form
use penn_cloud.Prelude.{Bytes, bytes_eq, Option, none, some, [], Bool, true, false, if◌then◌else◌}
use penn_cloud.Map.{Map, lookup, insert, erase, is_empty}

abbrev pub Row : Type 0
Row = Map Bytes

abbrev pub Tablet : Type 0
Tablet = Map Row

-- `tablet.at(row)`, used only where the row is present.
unfoldable pub row_of : Bytes → Tablet → Row
row_of r t = elim (lookup r t) [ none ↦ [] | some row ↦ row ]

-- What a client can see of a tablet: the value at a row and a column.
unfoldable pub cell : Bytes → Bytes → Tablet → Option Bytes
cell r c t = elim (lookup r t) [ none ↦ none | some row ↦ lookup c row ]

-- How a look-up in two steps ends.
pub data Found : Type 0 where
  no_row no_column : Found
  value : Bytes → Found

unfoldable pub get : Bytes → Bytes → Tablet → Found
get r c t = elim (lookup r t) [
  | none ↦ no_row
  | some row ↦ elim (lookup c row) [ none ↦ no_column | some v ↦ value v ]
]

-- A missing row is first added empty.
unfoldable pub put : Bytes → Bytes → Bytes → Tablet → Tablet
unfolding row_of
put r c v t =
    let t' : Tablet = elim (lookup r t) [ none ↦ insert r [] t | some row ↦ t ] in
    insert r (insert c v (row_of r t')) t'

pub data CputResult : Type 0 where
  row_missing column_missing value_differs : CputResult
  stored : Tablet → CputResult

unfoldable pub cput : Bytes → Bytes → Bytes → Bytes → Tablet → CputResult
unfolding row_of
cput r c current new t = elim (lookup r t) [
  | none ↦ row_missing
  | some row ↦ elim (lookup c row) [
    | none ↦ column_missing
    | some v ↦ if bytes_eq v current then stored (insert r (insert c new row) t) else value_differs
  ]
]

-- The row goes with its last column.
unfoldable pub delete_from : Bytes → Bytes → Row → Tablet → Tablet
delete_from r c row t = elim (lookup c row) [
  | none ↦ t
  | some v ↦ let rest : Row = erase c row in if is_empty rest then erase r t else insert r rest t
]

unfoldable pub delete : Bytes → Bytes → Tablet → Tablet
unfolding delete_from
delete r c t = elim (lookup r t) [ none ↦ t | some row ↦ delete_from r c row t ]
