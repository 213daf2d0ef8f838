-- ===== src/Storage/Files.antt =====
-- Storing and reading a file, webStorageUpload and webStorageDownload.
use penn_cloud.Prelude.{
  ℕ, zero, suc, ◌*◌, Bytes, bytes, bytes_eq, Bool, true, false, Option, none, some, List, [], ◌∷◌,
  ◌++◌, ◌||◌, if◌then◌else◌, drop, take, length, to_string, contains, ◌%◌, ◌^◌, ltb,
}
use penn_cloud.Mailbox.{is_blank}
use penn_cloud.TextServer.{cut}
use penn_cloud.Storage.Disk.{Disk}
use penn_cloud.Storage.Names.{split_string, path_in, metadata_column, content_column, listing}
use penn_cloud.Storage.Tree.{file_marker, is_file}

-- `int size = data.size()`, as the bound of a loop from 0: the last 32 bits of the size, and no
-- round where the highest of them is set, since the number is negative then.
unfoldable pub int_size : ℕ → ℕ
int_size size = let low = size % 2 ^ 32 in if ltb low (2 ^ 31) then low else 0

abbrev pub upload_chunk : ℕ
upload_chunk = 1000 * 1000

unfoldable pub chunk_name : Bytes → ℕ → Bytes
unfolding to_string
chunk_name path i = path ++ b'-' ∷ to_string i

-- The name with a number before its first dot; without a dot `substr` throws.
unfoldable pub numbered : Bytes → ℕ → Option Bytes
unfolding cut to_string
numbered path i = elim (cut b'.' path) [
  | none ↦ none
  | some (base, suffix) ↦ some (base ++ (b'(' ∷ (to_string i ++ (b')' ∷ (b'.' ∷ suffix)))))
]

-- `find(newfolder) == item` for some item of a list.
unfoldable pub is_listed : Bytes → List Bytes → Bool
is_listed name [] = false
is_listed name (item ∷ items) = bytes_eq item name || is_listed name items

module _ {S : Type 0} (disk : Disk S) where
  -- The first number whose name is no file; `none` is an exception, or more numbers than the fuel.
  unfoldable pub number_file : ℕ → S → Bytes → ℕ → Option (Bytes × ℕ)
  unfolding numbered
  number_file zero s path i = none
  number_file (suc fuel) s path i = elim (numbered path i) [
    | none ↦ none
    | some new_path ↦ elim (is_file (disk.get s new_path)) [
      | false ↦ some (new_path, i)
      | true ↦ number_file fuel s path (suc i)
    ]
  ]

  -- One chunk: its name in the list of the file, and its content.
  unfoldable pub store_chunk : S → Bytes → Bytes → Bytes → S
  store_chunk s path name chunk =
      let file_metadata : Bytes = disk.get s (metadata_column path) in
      let extended : Bytes =
        if contains (bytes "not found") file_metadata then name else file_metadata ++ b',' ∷ name in
      disk.put (disk.put s (metadata_column path) extended) (content_column name) chunk

  -- The loop over the chunks of a size. A round takes one byte at least, so the length of the data is
  -- enough fuel.
  unfoldable pub store_chunks : ℕ → ℕ → S → Bytes → ℕ → Bytes → S
  unfolding store_chunk chunk_name
  store_chunks zero size s path i content = s
  store_chunks (suc fuel) size s path i [] = s
  store_chunks (suc fuel) size s path i (x ∷ content) =
      store_chunks fuel size (store_chunk s path (chunk_name path i) (take size (x ∷ content))) path
        (suc i) (drop size (x ∷ content))

  -- The list of the folder, unless it holds the name; CPut writes only if it is still what was read.
  unfoldable pub list_file : S → Bytes → Bytes → Bytes → S
  unfolding listing is_listed split_string
  list_file s folder filename path =
      let parent_meta : Bytes = disk.get s (listing folder) in
      let extended : Bytes =
        if is_blank parent_meta
        then path
        else if is_listed filename (split_string b',' parent_meta)
        then parent_meta
        else parent_meta ++ b',' ∷ path in
      disk.cput s (listing folder) parent_meta extended

  -- The path that the file gets, and the name that the page shows.
  unfoldable pub file_path : ℕ → S → Bytes → Bytes → Option (Bytes × Bytes)
  unfolding path_in number_file
  file_path fuel s folder filename =
      let path : Bytes = path_in folder filename in
      elim (is_file (disk.get s path)) [
        | false ↦ some (path, filename)
        | true ↦ elim (number_file fuel s path 1) [
          | none ↦ none
          | some (new_path, i) ↦ some (new_path, filename ++ (b'(' ∷ (to_string i ++ b')' ∷ [])))
        ]
      ]

  -- From the test whether the name is taken to the list of the folder. The loop over the chunks runs
  -- from offset 0 up to `fileSize`, which is of type int.
  unfoldable pub store_file : ℕ → S → Bytes → Bytes → Bytes → Option (S × Bytes)
  unfolding file_path int_size store_chunks list_file
  store_file fuel s folder filename content = elim (file_path fuel s folder filename) [
    | none ↦ none
    | some (path, shown) ↦
        let s1 : S = disk.put s path file_marker in
        let file_size : ℕ = int_size (length content) in
        let s2 : S =
          store_chunks (length content) upload_chunk s1 path 1 (take file_size content) in
        some (list_file s2 folder shown path, shown)
  ]

  unfoldable pub read_chunks : S → List Bytes → Bytes
  read_chunks s [] = []
  read_chunks s (chunk ∷ chunks) = disk.get s (content_column chunk) ++ read_chunks s chunks

  -- The content of a file.
  unfoldable pub read_file : S → Bytes → Bytes
  unfolding read_chunks split_string
  read_file s path = read_chunks s (split_string b',' (disk.get s (metadata_column path)))
