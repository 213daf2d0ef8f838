-- ===== src/TextServer/Commands.antt =====
-- `processCommand` of backend/key_val_store.cc.
use penn_cloud.Prelude.{
  Bytes, bytes, bytes_eq, none, some, [], ◌∷◌, ◌++◌, take, length, ◌==◌, if◌then◌else◌, is_space,
  skip_spaces,
}
use penn_cloud.Map.{insert, erase}
use penn_cloud.Tablet.{Tablet, row_of, cell}
use penn_cloud.Worker.{Platform}

word_from : Bytes → Bytes × Bytes
unfolding is_space
word_from [] = ([], [])
word_from (x ∷ s) =
    let (word, rest) = word_from s in if is_space x then ([], x ∷ s) else (x ∷ word, rest)

-- `iss >> word`; at the end of the text the word stays empty, and so do all after it.
unfoldable pub next_word : Bytes → Bytes × Bytes
unfolding skip_spaces word_from
next_word s = word_from (skip_spaces s)

line_from : Bytes → Bytes
line_from [] = []
line_from (x ∷ s) = let rest = line_from s in if x == 10 then [] else x ∷ rest

-- `getline(iss, value)` and the removal of one leading space.
rest_of_line : Bytes → Bytes
unfolding line_from
rest_of_line s = elim (line_from s) [ [] ↦ [] | x ∷ b ↦ if x == 32 then b else x ∷ b ]

-- `kvStore[row][col] = value`
set_cell : Bytes → Bytes → Bytes → Tablet → Tablet
unfolding row_of
set_cell r c v t = insert r (insert c v (row_of r t)) t

line : Bytes → Bytes
line text = text ++ 10 ∷ []

-- The rows that begin with a prefix, in the order in which the store is iterated.
scan : Bytes → Tablet → Bytes
unfolding line
scan prefix [] = []
scan prefix ((r, row) ∷ t) =
    let rest = scan prefix t in
    if bytes_eq (take (length prefix) r) prefix then line r ++ rest else rest

-- A row stays when its last column goes.
delete_column : Bytes → Bytes → Tablet → Tablet
unfolding row_of
delete_column r c t = insert r (erase c (row_of r t)) t

unfoldable pub put_command : Tablet → Bytes → Tablet × Bytes
unfolding next_word rest_of_line set_cell line
put_command t s =
    let (r, s1) = next_word s in
    let (c, s2) = next_word s1 in (set_cell r c (rest_of_line s2) t, line (bytes "OK"))

unfoldable pub get_command : Tablet → Bytes → Tablet × Bytes
unfolding next_word cell line
get_command t s =
    let (r, s1) = next_word s in
    let (c, s2) = next_word s1 in
    elim (cell r c t) [ none ↦ (t, line (bytes "NOT_FOUND")) | some v ↦ (t, line v) ]

unfoldable pub delete_command : Tablet → Bytes → Tablet × Bytes
unfolding next_word cell line delete_column
delete_command t s =
    let (r, s1) = next_word s in
    let (c, s2) = next_word s1 in
    elim (cell r c t) [
      | none ↦ (t, line (bytes "NOT_FOUND"))
      | some v ↦ (delete_column r c t, line (bytes "OK"))
    ]

unfoldable pub cput_command : Tablet → Bytes → Tablet × Bytes
unfolding next_word rest_of_line cell line set_cell
cput_command t s =
    let (r, s1) = next_word s in
    let (c, s2) = next_word s1 in
    let (old, s3) = next_word s2 in
    elim (cell r c t) [
      | none ↦ (t, line (bytes "NOT_FOUND"))
      | some v ↦
          if bytes_eq v old
          then (set_cell r c (rest_of_line s3) t, line (bytes "OK"))
          else (t, line (bytes "FAIL"))
    ]

-- The store after a command, and the response.
unfoldable pub process_command : Platform → Tablet → Bytes → Tablet × Bytes
unfolding next_word put_command get_command delete_command cput_command scan line
process_command p t command_line =
    let (cmd, s) = next_word command_line in
    if bytes_eq cmd (bytes "PUT")
    then put_command t s
    else if bytes_eq cmd (bytes "GET")
    then get_command t s
    else if bytes_eq cmd (bytes "DELETE")
    then delete_command t s
    else if bytes_eq cmd (bytes "CPUT")
    then cput_command t s
    else if bytes_eq cmd (bytes "SCAN")
    then (t, line (bytes "+OK") ++ scan (next_word s).0 (p.iterate t))
    else (t, line (bytes "ERROR: Unknown command"))
