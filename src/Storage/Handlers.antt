-- ===== src/Storage/Handlers.antt =====
-- The handlers of the storage, from the request to the page.
use penn_cloud.Prelude.{
  text_of, ℕ, Bytes, bytes, bytes_eq, Option, none, some, List, [], ◌∷◌, ◌++◌, ◌&&◌, ◌||◌, not,
  if◌then◌else◌, cut_text, contains,
}
use penn_cloud.Map.{Map, lookup}
use penn_cloud.Service.{Service, is_err}
use penn_cloud.Mailbox.{is_blank}
use penn_cloud.TextServer.{crlf}
use penn_cloud.Storage.Disk.{Disk}
use penn_cloud.Storage.Names.{
  parse_query_params, split_string, joined, local_name, parent_of, path_in, listing,
  metadata_column, is_valid_name,
}
use penn_cloud.Storage.Tree.{is_folder, folder_marker, deleted_marker, delete_rec}
use penn_cloud.Storage.Files.{read_file, is_listed}
use penn_cloud.Storage.Requests.{
  page, bad_request, confirmed, get_content_type, send_chunked_response, url_params, query_of,
  field, read_request_body, with_client,
}

abbrev pub shown_folder : Bytes → Bytes
shown_folder folder = if is_blank folder then bytes "root" else folder

-- The items that do not hold a name.
unfoldable pub not_holding : Bytes → List Bytes → List Bytes
unfolding contains
not_holding name [] = []
not_holding name (item ∷ items) =
    let rest = not_holding name items in
    if is_blank name || contains name item then rest else item ∷ rest

-- The new folder: first in the list of its parent, then its own marker and list.
unfoldable pub add_folder : {S : Type 0} → Disk S → S → Bytes → Bytes → S
unfolding listing split_string is_listed path_in
add_folder {S = S} disk s parent new_folder =
    let path : Bytes = path_in parent new_folder in
    let parent_meta : Bytes = disk.get s (listing parent) in
    let s1 : S =
      if is_listed new_folder (split_string b',' parent_meta)
      then s
      else disk.put s (listing parent)
          (if is_blank parent_meta then path else parent_meta ++ b',' ∷ path) in
    disk.put (disk.put s1 path folder_marker) (metadata_column path) []

folder_created : Bytes → Bytes → Bytes → Bytes
unfolding text_of confirmed
folder_created parent new_folder path = confirmed (
    text_of (
      bytes "<html><body><h1>Folder Created</h1><p>Folder '"
      ∷ new_folder
      ∷ bytes "' has been created in '"
      ∷ shown_folder parent
      ∷ bytes "'.</p><p><a href='/list?folder="
      ∷ path
      ∷ bytes "'>View Folder</a></p><p><a href='/storage'>Back to Storage</a></p></body></html>"
      ∷ []))

-- The fields of the form decide over the query.
unfoldable pub create_folder : {S : Type 0} → Disk S → S → Map Bytes → Map Bytes → S × Bytes
unfolding field is_valid_name path_in bad_request add_folder folder_created
create_folder disk s params fields =
    let chosen : Bytes = field (bytes "parentFolder") fields in
    let parent : Bytes = if is_blank chosen then field (bytes "folder") params else chosen in
    let new_folder : Bytes = field (bytes "newfolder") fields in
    let path : Bytes = path_in parent new_folder in
    let marker : Bytes = disk.get s path in
    if is_blank new_folder || not (is_valid_name new_folder)
    then (s, bad_request (bytes "Missing new folder name or incorrect folder name."))
    else if not (is_blank marker) && not (is_err marker) && not (bytes_eq marker deleted_marker)
    then (s, bad_request (bytes "Folder already exists."))
    else (add_folder disk s parent new_folder, folder_created parent new_folder path)

-- The page after a deletion, by the marker that is read then.
deletion_page : Bytes → Bytes → Bytes → Bytes
unfolding text_of confirmed
deletion_page marker parent name = confirmed (
    text_of (
      bytes "<html><body><p>"
      ∷ (if is_folder marker then bytes "Folder" else bytes "File")
      ∷ bytes " <strong>"
      ∷ name
      ∷ bytes "</strong> deleted.</p><p><a href='/list?folder="
      ∷ parent
      ∷ bytes "'>Back to "
      ∷ shown_folder parent
      ∷ bytes "</a></p></body></html>"
      ∷ []))

-- The items of the parent that hold the name go first.
unfoldable pub delete_path : {S : Type 0} → ℕ → Disk S → S → Bytes → Option (S × Bytes)
unfolding listing split_string not_holding joined local_name parent_of delete_rec deletion_page
delete_path fuel disk s path =
    let parent : Bytes = parent_of path in
    let kept : List Bytes =
      not_holding (local_name path) (split_string b',' (disk.get s (listing parent))) in
    elim (delete_rec disk fuel (disk.put s (listing parent) (joined kept)) path) [
      | none ↦ none
      | some s1 ↦ some (s1, deletion_page (disk.get s1 path) parent (local_name path))
    ]

module _ {S : Type 0} (service : Service S) where
  unfoldable pub web_storage_download : S → Bytes → Bytes → Option (S × Bytes)
  unfolding with_client url_params lookup path_in read_file page get_content_type
      send_chunked_response text_of
  web_storage_download s username request = with_client service s username λ disk s1.
      elim (url_params request) [
        | none ↦ none
        | some params ↦
            let filename : Bytes = elim (lookup (bytes "filename") params) [
              | none ↦ bytes "myfile"
              | some name ↦ name
            ] in
            let content : Bytes =
              read_file disk s1 (path_in (field (bytes "folder") params) filename) in
            some (
              s1,
              if is_blank content
                  then page (bytes "404 Not Found") (
                      bytes
                        "<html><body><h1>404 Not Found</h1><p>File not found.</p></body></html>")
                  else send_chunked_response (bytes "HTTP/1.1 200 OK") (get_content_type filename)
                      content
                      (text_of (
                        bytes "Content-Disposition: attachment; filename=\""
                        ∷ filename
                        ∷ bytes "\""
                        ∷ [])),
            )
      ]

  unfoldable pub web_storage_create_folder : S → Bytes → Bytes → List Bytes → Option (S × Bytes)
  unfolding with_client url_params cut_text crlf bad_request read_request_body parse_query_params
      create_folder
  web_storage_create_folder s username request reads = with_client service s username λ disk s1.
      elim (url_params request) [
        | none ↦ none
        | some params ↦
            if not (contains (crlf ++ crlf) request)
            then some (s1, bad_request (bytes "Missing header terminator."))
            else elim (parse_query_params (read_request_body request reads)) [
              | none ↦ none
              | some fields ↦ some (create_folder disk s1 params fields)
            ]
      ]

  unfoldable pub web_storage_delete : ℕ → S → Bytes → Bytes → Option (S × Bytes)
  unfolding with_client query_of parse_query_params lookup bad_request delete_path
  web_storage_delete fuel s username request = with_client service s username λ disk s1.
      elim (query_of request) [
        | none ↦ some (s1, bad_request (bytes "Missing path parameter."))
        | some query ↦ elim (parse_query_params query) [
          | none ↦ none
          | some params ↦ elim (lookup (bytes "path") params) [
            | none ↦ some (s1, bad_request (bytes "Missing path parameter."))
            | some path ↦ delete_path fuel disk s1 path
          ]
        ]
      ]
