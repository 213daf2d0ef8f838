-- ===== src/Tests/Storage.antt =====
-- The storage, on a row that is kept as a map.
use penn_cloud.Prelude.{
  Bytes, bytes, bytes_eq, ◌≡◌, ◌≢◌, refl, sym, ◌∙◌, true, false, Option, none, some, [], ◌∷◌, arith,
  contains, cut_text, begins, if◌then◌else◌, Bool-cases, inl, inr,
}
use penn_cloud.Map.{Map, lookup, insert, erase, lookup-insert, lookup-erase}
use penn_cloud.KeyValue
use penn_cloud.Service.{is_err}
use penn_cloud.Storage.Disk.{
  Disk, Columns, IsDisk, SaysNotFound, set_column, clear_column, cput_column,
}
use penn_cloud.Storage.Names.{joined, metadata_column, path_in}
use penn_cloud.Storage.Tree.{folder_marker, file_marker, delete_rec, move_whole_file, is_present}
use penn_cloud.Storage.Files.{chunk_name, is_listed, file_path, store_file, read_file}
use penn_cloud.Storage.RoundTrip.{IsName, texts}
use penn_cloud.Storage.Moving.Apart.{chunk_list}
use penn_cloud.Storage.Moving.{move_whole_file-read_file}
use penn_cloud.Storage.Upload.{store_file-read_file}
use penn_cloud.Storage.Deletion.Leftovers.{FoldersIn, items_of}
use penn_cloud.Storage.Deletion.{Ends, delete_rec-Ends}

abbrev missing_text : Bytes
missing_text = bytes "ERR 5: Column not found"

abbrev read : Option Bytes → Bytes
read none = missing_text
read (some v) = v

-- The replies of a worker, on one row.
abbrev row : Disk (Map Bytes)
row = record {
  get = λ m c. read (lookup c m);
  put = λ m c v. insert c v m;
  delete = λ m c. erase c m;
  cput = λ m c old new. if KeyValue.holds old (lookup c m) then insert c new m else m;
}

abbrev Keeps : Map Bytes → Columns → Type 0
Keeps m f = (c : Bytes) → lookup c m ≡ f c

missing-err : is_err missing_text ≡ true
unfolding is_err bytes_eq
missing-err = refl

missing-not_found : contains (bytes "not found") missing_text ≡ true
unfolding contains cut_text begins bytes_eq
missing-not_found = refl

row-IsDisk : IsDisk row Keeps
unfolding set_column clear_column cput_column
row-IsDisk = record {
  get_value = λ m f c v h e. rw (h c, e) refl;
  get_missing = λ m f c h e. rw (h c, e) missing-err;
  put_holds = λ m f c v h d. ground (arith, lookup-insert c d v m, h d);
  cput_holds = λ m f c old new h d. ground (arith, lookup-insert c d new m, h c, h d);
  delete_holds = λ m f c h d. ground (arith, lookup-erase c d m, h d);
}

row-SaysNotFound : SaysNotFound row Keeps
row-SaysNotFound m f c h e = rw (h c, e) missing-not_found

abbrev nothing : Columns
nothing c = none

empty-Keeps : Keeps [] nothing
unfolding lookup
empty-Keeps c = refl

abbrev path : Bytes
path = bytes "a.txt"

path-IsName : IsName path
unfolding contains cut_text begins bytes_eq
path-IsName = record { no_comma = (refl, (refl, (refl, (refl, (refl, tt))))); found = refl }

path-chosen : file_path row 1 [] [] path ≡ some (path, path)
unfolding file_path lookup bytes_eq path_in
path-chosen = refl

store_file-read_file_example :
    (m : Map Bytes) × (store_file row 1 [] [] path (bytes "text") ≡ some (m, path))
    × (read_file row m path ≡ bytes "text")
store_file-read_file_example =
    store_file-read_file row Keeps row-IsDisk row-SaysNotFound 1 [] nothing [] path path path b't'
      (bytes "ext") empty-Keeps path-chosen path-IsName refl (omega arith)

-- A folder that lists itself.
abbrev folder : Bytes
folder = bytes "d"

abbrev cyclic : Map Bytes
cyclic = (folder, folder_marker) ∷ (metadata_column folder, bytes "d,d/x") ∷ []

abbrev cyclic_columns : Columns
cyclic_columns c = lookup c cyclic

not_listed : (p : Bytes) → bytes_eq folder p ≡ false → cyclic_columns p ≢ some folder_marker
unfolding lookup
not_listed p h e = elim (Bool-cases (bytes_eq (metadata_column folder) p)) [
  | inl here ↦
      let got : cyclic_columns p ≡ some (bytes "d,d/x") = rw (h, here, lookup) refl in
      cc (sym got ∙ e)
  | inr other ↦ let got : cyclic_columns p ≡ none = rw (h, other, lookup) refl in cc (sym got ∙ e)
]

cyclic-FoldersIn : FoldersIn cyclic_columns (folder ∷ [])
unfolding lookup is_listed
cyclic-FoldersIn p e = elim (Bool-cases (bytes_eq folder p)) [
  | inl h ↦ rw h refl
  | inr h ↦ absurd (not_listed p h e)
]

delete_rec-Ends_example :
    Ends row Keeps row-IsDisk
      (delete_rec row 2 cyclic folder)
      cyclic_columns
      (folder ∷ items_of cyclic_columns folder)
delete_rec-Ends_example =
    delete_rec-Ends row Keeps row-IsDisk 2 (folder ∷ []) cyclic cyclic_columns folder (λ c. refl)
      cyclic-FoldersIn (omega arith)

-- A file in one chunk.
abbrev old_path : Bytes
old_path = bytes "a"

abbrev new_path : Bytes
new_path = bytes "d/b"

abbrev one_file : Map Bytes
one_file =
    (old_path, file_marker)
    ∷ (bytes "a-metadata", bytes "a-1")
    ∷ (bytes "a-1-content", bytes "text")
    ∷ []

abbrev one_file_columns : Columns
one_file_columns c = lookup c one_file

old_path-IsName : IsName old_path
unfolding contains cut_text begins bytes_eq
old_path-IsName = record { no_comma = (refl, tt); found = refl }

new_path-IsName : IsName new_path
unfolding contains cut_text begins bytes_eq
new_path-IsName = record { no_comma = (refl, (refl, (refl, tt))); found = refl }

one_file-listed :
    one_file_columns (metadata_column old_path) ≡ some (joined (chunk_list old_path 1 1))
unfolding lookup bytes_eq joined chunk_name
one_file-listed = refl

one_file-present : is_present (joined (chunk_list old_path 1 1)) ≡ true
unfolding is_present is_err bytes_eq joined chunk_name
one_file-present = refl

one_file-texts : texts one_file_columns (chunk_list old_path 1 1) ≡ some (bytes "text")
unfolding lookup bytes_eq chunk_name
one_file-texts = refl

move_whole_file-read_file_example :
    (m : Map Bytes) × (g : Columns) × (move_whole_file row one_file old_path new_path ≡ some m)
    × Keeps m g
    × (read_file row m new_path ≡ bytes "text")
    × (g new_path ≡ some file_marker)
    × (g old_path ≡ none)
move_whole_file-read_file_example =
    move_whole_file-read_file row Keeps row-IsDisk row-SaysNotFound one_file one_file_columns
      old_path new_path 0 (bytes "text") (λ c. refl) old_path-IsName new_path-IsName (refl, tt)
      (refl, (refl, (refl, tt))) (λ e. cc) one_file-listed one_file-present one_file-texts
