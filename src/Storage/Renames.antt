-- ===== src/Storage/Renames.antt =====
-- The handlers that rename a file or a folder.
use penn_cloud.Prelude.{
  text_of, ℕ, Bytes, bytes, bytes_eq, Option, none, some, List, [], ◌∷◌, ◌||◌, not, if◌then◌else◌,
  begins,
}
use penn_cloud.Service.{Service}
use penn_cloud.Mailbox.{is_blank}
use penn_cloud.Storage.Disk.{Disk}
use penn_cloud.Storage.Names.{
  parse_query_params, split_string, joined, local_name, parent_of, path_in, listing, is_valid_name,
  ensure_same_extension,
}
use penn_cloud.Storage.Tree.{is_file, is_folder, move_whole_file, rename_folder_rec}
use penn_cloud.Storage.Requests.{
  bad_request, confirmed, url_params, field, read_request_body, with_client,
}

-- A path in place of another one.
unfoldable pub replaced : Bytes → Bytes → List Bytes → List Bytes
replaced old new [] = []
replaced old new (item ∷ items) = (if bytes_eq item old then new else item) ∷ replaced old new items

rename_form : Bytes → Bytes → Bytes
unfolding text_of confirmed
rename_form folder name = confirmed (
    text_of (
      bytes "<html><body><h1>Rename File</h1><form method='POST' action='/rename'>"
      ∷ bytes "  <input type='hidden' name='folder' value='"
      ∷ folder
      ∷ bytes "'>  <input type='hidden' name='oldfilename' value='"
      ∷ name
      ∷ bytes "'>  <p>Current: <strong>"
      ∷ name
      ∷ bytes
          "</strong></p>  <p><label>New name: <input type='text' name='newfilename'></label></p>"
      ∷ bytes "  <p><input type='submit' value='Rename'></p></form><p><a href='/list?folder="
      ∷ folder
      ∷ bytes "'>Back</a></p></body></html>"
      ∷ []))

-- The content, the marker and the list of the folder, if the new name is free.
unfoldable pub rename_file : {S : Type 0} → Disk S → S → Bytes → Bytes → Bytes → Option (S × Bytes)
unfolding is_valid_name ensure_same_extension path_in move_whole_file listing split_string replaced
    joined bad_request confirmed text_of
rename_file disk s folder old_name wanted =
    let new_name : Bytes = ensure_same_extension old_name wanted in
    let old_path : Bytes = path_in folder old_name in
    let new_path : Bytes = path_in folder new_name in
    if is_blank wanted || not (is_valid_name wanted)
    then some (s, bad_request (bytes "Invalid new filename."))
    else if is_file (disk.get s new_path)
    then some (s, bad_request (bytes "File name already exists."))
    else elim (move_whole_file disk s old_path new_path) [
      | none ↦ none
      | some s1 ↦
          let entries : List Bytes =
            replaced old_path new_path (split_string b',' (disk.get s1 (listing folder))) in
          some (
            disk.put s1 (listing folder) (joined entries),
            confirmed (
                text_of (
                  bytes "<html><body><p>Renamed <strong>"
                  ∷ old_name
                  ∷ bytes "</strong> to <strong>"
                  ∷ new_name
                  ∷ bytes "</strong>.</p><p><a href='/list?folder="
                  ∷ folder
                  ∷ bytes "'>Back</a></p></body></html>"
                  ∷ [])),
          )
    ]

folder_form : Bytes → Bytes → Bytes
unfolding text_of confirmed
folder_form path name = confirmed (
    text_of (
      bytes "<html><body><h1>Rename Folder</h1><form method='POST' action='/renameFolder'>\n"
      ∷ bytes "  <input type='hidden' name='folder' value='"
      ∷ path
      ∷ bytes "'>\n  <p>Current name: <strong>"
      ∷ name
      ∷ bytes "</strong></p>\n  <p>Valid characters in File Name: A-Z a-z 0-9 ( ) _ and space</p>\n"
      ∷ bytes "  <p><label>New name: <input type='text' name='newname'></label></p>\n"
      ∷ bytes "  <p><input type='submit' value='Rename'></p>\n</form><p><a href='/list?folder="
      ∷ path
      ∷ bytes "'>Back</a></p></body></html>"
      ∷ []))

-- The list of the parent, and then the folder with all that it lists.
unfoldable pub rename_folder : {S : Type 0} → ℕ → Disk S → S → Bytes → Bytes → Option (S × Bytes)
unfolding is_valid_name parent_of local_name path_in listing split_string replaced joined
    rename_folder_rec bad_request confirmed text_of
rename_folder fuel disk s path new_name =
    let parent : Bytes = parent_of path in
    let new_path : Bytes = path_in parent new_name in
    if is_blank new_name || not (is_valid_name new_name)
    then some (s, bad_request (bytes "Missing new folder name or incorrect format of folder name."))
    else if is_folder (disk.get s new_path)
    then some (s, bad_request (bytes "Folder with same name already exists."))
    else (let parts : List Bytes =
          replaced path new_path (split_string b',' (disk.get s (listing parent))) in
        elim (rename_folder_rec disk fuel (disk.put s (listing parent) (joined parts)) path
          new_path) [
            | none ↦ none
            | some s1 ↦ some (
              s1,
              confirmed (
                  text_of (
                    bytes "<html><body><p>Folder <strong>"
                    ∷ local_name path
                    ∷ bytes "</strong> renamed to <strong>"
                    ∷ new_name
                    ∷ bytes "</strong>.</p><p><a href='/list?folder="
                    ∷ new_path
                    ∷ bytes "'>View \""
                    ∷ new_name
                    ∷ bytes "\"</a></p></body></html>"
                    ∷ [])),
            )
          ])

module _ {S : Type 0} (service : Service S) where
  unfoldable pub web_storage_rename_file : S → Bytes → Bytes → List Bytes → Option (S × Bytes)
  unfolding with_client begins url_params field parse_query_params read_request_body rename_form
      rename_file
  web_storage_rename_file s username request reads = with_client service s username λ disk s1.
      if begins (bytes "POST /rename") request
      then elim (parse_query_params (read_request_body request reads)) [
        | none ↦ none
        | some fields ↦
            rename_file disk s1 (field (bytes "folder") fields) (field (bytes "oldfilename") fields)
              (field (bytes "newfilename") fields)
      ]
      else elim (url_params request) [
        | none ↦ none
        | some params ↦
            some (s1, rename_form (field (bytes "folder") params) (field (bytes "filename") params))
      ]

  unfoldable pub web_storage_rename_folder : ℕ → S → Bytes → Bytes → List Bytes → Option (S × Bytes)
  unfolding with_client begins url_params field parse_query_params read_request_body local_name
      folder_form rename_folder
  web_storage_rename_folder fuel s username request reads =
      with_client service s username λ disk s1.
        if begins (bytes "POST /renameFolder") request
        then elim (parse_query_params (read_request_body request reads)) [
          | none ↦ none
          | some fields ↦
              rename_folder fuel disk s1 (field (bytes "folder") fields)
                (field (bytes "newname") fields)
        ]
        else elim (url_params request) [
          | none ↦ none
          | some params ↦
              let path : Bytes = field (bytes "folder") params in
              some (s1, folder_form path (local_name path))
        ]
