-- ===== src/Storage/Tree.antt =====
-- Deleting, renaming and moving files and folders. A folder lists the paths of what is in it.
use penn_cloud.Prelude.{
  ℕ, zero, suc, Bytes, bytes, bytes_eq, Bool, true, false, Option, none, some, List, [], ◌∷◌, ◌++◌,
  ◌&&◌, ◌||◌, not, if◌then◌else◌, drop, length, map, to_string, cut_last, ltb,
}
use penn_cloud.Service.{is_err}
use penn_cloud.Mailbox.{is_blank}
use penn_cloud.Smtp.{is_none}
use penn_cloud.Storage.Disk.{Disk}
use penn_cloud.Storage.Names.{
  split_string, joined, local_name, parent_of, path_in, metadata_column, content_column, listing,
}

abbrev pub folder_marker : Bytes
folder_marker = bytes "KV-Folder"

abbrev pub deleted_marker : Bytes
deleted_marker = bytes "DEL KV-Folder"

abbrev pub file_marker : Bytes
file_marker = bytes "KV-File"

abbrev pub is_folder : Bytes → Bool
is_folder marker = bytes_eq marker folder_marker

abbrev pub is_file : Bytes → Bool
is_file marker = bytes_eq marker file_marker

-- Neither empty nor an error text.
unfoldable pub is_present : Bytes → Bool
is_present text = not (is_blank text) && not (is_err text)

-- `chunk.substr(size)` throws if the chunk's name is shorter.
unfoldable pub suffix_from : ℕ → Bytes → Option Bytes
suffix_from n chunk = if ltb (length chunk) n then none else some (drop n chunk)

-- The steps of a loop, any of which may not end.
abbrev pub for_each {ℓ} : {S : Type ℓ} → (S → Bytes → Option S) → S → List Bytes → Option S
for_each step s [] = some s
for_each step s (item ∷ items) = elim (step s item) [
  | none ↦ none
  | some s1 ↦ for_each step s1 items
]

-- The items of a folder other than itself.
unfoldable pub children_of : Bytes → List Bytes → List Bytes
children_of path [] = []
children_of path (item ∷ items) =
    let rest = children_of path items in
    if is_blank item || bytes_eq item path then rest else item ∷ rest

unfoldable pub moved_child : Bytes → Bytes → Bytes
unfolding local_name
moved_child new_path child =
    if is_blank (local_name child) then new_path else new_path ++ b'/' ∷ local_name child

-- The items of a list but one.
unfoldable pub without_item : Bytes → List Bytes → List Bytes
without_item path [] = []
without_item path (item ∷ items) =
    let rest = without_item path items in if bytes_eq item path then rest else item ∷ rest

-- The name of a file before its last dot, and the rest with the dot.
unfoldable pub base_and_extension : Bytes → Bytes × Bytes
unfolding cut_last
base_and_extension name = elim (cut_last b'.' name) [
  | none ↦ (name, [])
  | some (base, suffix) ↦ (base, b'.' ∷ suffix)
]

module _ {S : Type 0} (disk : Disk S) where
  unfoldable pub delete_chunks : S → List Bytes → S
  delete_chunks s [] = s
  delete_chunks s (chunk ∷ chunks) = delete_chunks (disk.delete s (content_column chunk)) chunks

  -- The branch of `deleteRec` for a file.
  unfoldable pub delete_file : S → Bytes → S
  unfolding delete_chunks is_present split_string
  delete_file s path =
      let file_meta : Bytes = disk.get s (metadata_column path) in
      let s1 : S =
        if is_present file_meta
        then disk.delete (delete_chunks s (split_string b',' file_meta)) (metadata_column path)
        else s in
      disk.delete (disk.delete s1 (content_column path)) path

  -- The depth of the recursion is bounded by the fuel; `none` stands for one that goes deeper.
  unfoldable pub delete_rec : ℕ → S → Bytes → Option S
  unfolding delete_file is_present split_string
  delete_rec zero s path = none
  delete_rec (suc fuel) s path = elim (is_folder (disk.get s path)) [
    | false ↦ some (delete_file s path)
    | true ↦
        let s1 : S = disk.put s path deleted_marker in
        let children : Bytes = disk.get s1 (metadata_column path) in
        for_each (delete_rec fuel) (disk.delete s1 (metadata_column path))
          (if is_present children then split_string b',' children else [])
  ]

  -- Each chunk under its new name, with the list of these names; a name that is shorter than the
  -- path throws.
  unfoldable pub move_chunks : S → Bytes → Bytes → List Bytes → Option (S × List Bytes)
  unfolding suffix_from
  move_chunks s old_path new_path [] = some (s, [])
  move_chunks s old_path new_path (chunk ∷ chunks) = elim (suffix_from (length old_path) chunk) [
    | none ↦ none
    | some suffix ↦
        let new_chunk : Bytes = new_path ++ suffix in
        let s1 : S = disk.put s (content_column new_chunk) (disk.get s (content_column chunk)) in
        elim (move_chunks (disk.delete s1 (content_column chunk)) old_path new_path chunks) [
          | none ↦ none
          | some (s2, new_chunks) ↦ some (s2, new_chunk ∷ new_chunks)
        ]
  ]

  -- The content of a file, in chunks or in one column.
  unfoldable pub move_content : S → Bytes → Bytes → Option S
  unfolding is_present split_string joined move_chunks
  move_content s old_path new_path =
      let file_meta : Bytes = disk.get s (metadata_column old_path) in
      elim (is_present file_meta) [
        | true ↦ elim (move_chunks s old_path new_path (split_string b',' file_meta)) [
          | none ↦ none
          | some (s1, new_chunks) ↦ some (
              disk.delete (disk.put s1 (metadata_column new_path) (joined new_chunks))
                (metadata_column old_path))
        ]
        | false ↦ some (
            disk.delete
              (disk.put s (content_column new_path) (disk.get s (content_column old_path)))
              (content_column old_path))
      ]

  -- The content, and then the marker.
  unfoldable pub move_whole_file : S → Bytes → Bytes → Option S
  unfolding move_content
  move_whole_file s old_path new_path = elim (move_content s old_path new_path) [
    | none ↦ none
    | some s1 ↦ some (disk.delete (disk.put s1 new_path file_marker) old_path)
  ]

  -- `none` stands for an exception, or a recursion that is deeper than the fuel.
  unfoldable pub rename_folder_rec : ℕ → S → Bytes → Bytes → Option S
  unfolding move_whole_file split_string local_name
  rename_folder_rec zero s old_path new_path = none
  rename_folder_rec (suc fuel) s old_path new_path =
      let folder_meta : Bytes = disk.get s (metadata_column old_path) in
      let s1 : S = disk.put s new_path folder_marker in
      let s2 : S = disk.put s1 (metadata_column new_path) folder_meta in
      let s3 : S = disk.put s2 old_path deleted_marker in
      for_each
        (λ t child.
          let new_child : Bytes = new_path ++ b'/' ∷ local_name child in
          elim (is_folder (disk.get t child)) [
            | true ↦ rename_folder_rec fuel t child new_child
            | false ↦ move_whole_file t child new_child
          ])
        (disk.delete s3 (metadata_column old_path)) (split_string b',' folder_meta)

  -- A child is moved by its marker: one with another marker stays.
  unfoldable pub rename_folder_move_rec : ℕ → S → Bytes → Bytes → Option S
  unfolding move_whole_file split_string joined children_of moved_child
  rename_folder_move_rec zero s old_path new_path = none
  rename_folder_move_rec (suc fuel) s old_path new_path =
      let read : Bytes = disk.get s (metadata_column old_path) in
      let folder_meta : Bytes = if is_err read then [] else read in
      let children : List Bytes = children_of old_path (split_string b',' folder_meta) in
      let s1 : S = disk.put s new_path folder_marker in
      let s2 : S =
        disk.put s1 (metadata_column new_path) (joined (map (moved_child new_path) children)) in
      let s3 : S = disk.put s2 old_path deleted_marker in
      for_each
        (λ t child.
          let marker : Bytes = disk.get t child in
          elim (is_folder marker) [
            | true ↦ rename_folder_move_rec fuel t child (moved_child new_path child)
            | false ↦ elim (is_file marker) [
              | true ↦ move_whole_file t child (moved_child new_path child)
              | false ↦ some t
            ]
          ])
        (disk.delete s3 (metadata_column old_path)) children

  -- The end of `moveFile` and of `moveFolder`: the list of the folder that the path was in.
  unfoldable pub unlist : S → Bytes → S
  unfolding listing parent_of split_string without_item joined
  unlist s path =
      let column : Bytes = listing (parent_of path) in
      let kept : List Bytes = without_item path (split_string b',' (disk.get s column)) in
      if is_none kept then disk.delete s column else disk.put s column (joined kept)

  -- The first name that is free: the one that is tried, or one with a number before its extension.
  unfoldable pub free_path : ℕ → S → Bytes → Bytes → Bytes → ℕ → Bytes → Option Bytes
  unfolding path_in to_string
  free_path zero s folder base ext suffix tried = none
  free_path (suc fuel) s folder base ext suffix tried =
      let existing : Bytes = disk.get s tried in
      elim (is_file existing || is_folder existing) [
        | false ↦ some tried
        | true ↦
            free_path fuel s folder base ext (suc suffix)
              (path_in folder (base ++ (b'(' ∷ (to_string suffix ++ (b')' ∷ ext)))))
      ]

  -- `none` stands for an exception, or more numbers tried than the fuel.
  unfoldable pub move_file : ℕ → S → Bytes → Bytes → Option S
  unfolding base_and_extension free_path move_whole_file local_name path_in listing unlist
      split_string joined
  move_file fuel s old_path new_folder =
      let name : Bytes = local_name old_path in
      let (base, ext) = base_and_extension name in
      elim (free_path fuel s new_folder base ext 1 (path_in new_folder name)) [
        | none ↦ none
        | some new_path ↦ elim (move_whole_file s old_path new_path) [
          | none ↦ none
          | some s1 ↦
              let items : List Bytes =
                split_string b',' (disk.get s1 (listing new_folder)) ++ new_path ∷ [] in
              some (unlist (disk.put s1 (listing new_folder) (joined items)) old_path)
        ]
      ]

  unfoldable pub move_folder : ℕ → S → Bytes → Bytes → Option S
  unfolding rename_folder_move_rec local_name path_in listing unlist
  move_folder fuel s old_path new_parent =
      let new_path : Bytes = path_in new_parent (local_name old_path) in
      elim (rename_folder_move_rec fuel s old_path new_path) [
        | none ↦ none
        | some s1 ↦
            let list : Bytes = disk.get s1 (listing new_parent) in
            let extended : Bytes =
              if is_err list || is_blank list then new_path else list ++ b',' ∷ new_path in
            some (unlist (disk.put s1 (listing new_parent) extended) old_path)
      ]
