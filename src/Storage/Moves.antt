-- ===== src/Storage/Moves.antt =====
-- The handlers that move a file or a folder, with the pages on which the target is chosen.
use penn_cloud.Prelude.{
  text_of, ℕ, Bytes, bytes, bytes_eq, Bool, true, false, Option, none, some, List, [], ◌∷◌, ◌++◌,
  ◌||◌, if◌then◌else◌, begins,
}
use penn_cloud.Service.{Service, is_err}
use penn_cloud.Map.{Map}
use penn_cloud.Mailbox.{is_blank}
use penn_cloud.Storage.Disk.{Disk}
use penn_cloud.Storage.Names.{
  parse_query_params, split_string, local_name, parent_of, path_in, listing,
}
use penn_cloud.Storage.Tree.{is_folder, move_file, move_folder}
use penn_cloud.Storage.Requests.{
  bad_request, confirmed, url_params, field, read_request_body, with_client,
}

abbrev shown_target : Bytes → Bytes
shown_target folder = if is_blank folder then bytes "Root" else folder

page_head : Bytes → Bytes
unfolding text_of
page_head title = text_of (
    bytes "<!DOCTYPE html>\n<html>\n<head>\n  <meta charset='utf-8'>\n  <title>"
    ∷ title
    ∷ bytes "</title>\n  <style>\n    ul { list-style:none; padding-left:0; }\n"
    ∷ bytes "    li { margin:4px 0; }\n    form { display:inline; }\n  </style>\n"
    ∷ bytes "</head>\n<body>\n"
    ∷ [])

hidden : Bytes → Bytes → Bytes
unfolding text_of
hidden name value = text_of (
    bytes "        <input type='hidden' name="
    ∷ name
    ∷ bytes " value='"
    ∷ value
    ∷ bytes "'>\n"
    ∷ [])

-- A form that moves what `inputs` names to a target.
target_form : Bytes → Bytes → Bytes → Bytes → Bytes
unfolding text_of hidden
target_form action inputs target label = text_of (
    bytes "      <form method='POST' action='"
    ∷ action
    ∷ bytes "'>\n"
    ∷ inputs
    ∷ hidden (bytes "'targetFolder'") target
    ∷ bytes "        <button type='submit'>"
    ∷ label
    ∷ bytes "</button>\n      </form>\n    </li>\n"
    ∷ [])

home_item : Bytes → Bytes → Bytes
unfolding target_form
home_item action inputs = bytes "    <li>\n" ++ target_form action inputs [] (bytes "Home")

-- A link into a folder, and the form that moves to it.
folder_item : Bytes → Bytes → Bytes → Bytes → Bytes
unfolding text_of target_form local_name
folder_item action inputs link path = text_of (
    bytes "    <li>\n      <a href='"
    ∷ link
    ∷ bytes "&currentFolder="
    ∷ path
    ∷ bytes "'>"
    ∷ local_name path
    ∷ bytes "/</a>\n"
    ∷ target_form action inputs path (bytes "Move Here")
    ∷ [])

-- The link to the folder above, or back to a list.
up_or_cancel : Bytes → Bytes → Bytes → Bytes
unfolding text_of parent_of
up_or_cancel link current back =
    if is_blank current
    then text_of (bytes "  <p><a href='/list?folder=" ∷ back ∷ bytes "'>Cancel</a></p>\n" ∷ [])
    else (let parent : Bytes = parent_of current in
        text_of (
          bytes "  <p><a href='"
          ∷ link
          ∷ (if is_blank parent then [] else bytes "&currentFolder=" ++ parent)
          ∷ bytes "'>Up</a></p>\n"
          ∷ []))

moved_page : Bytes → Bytes → Bytes → Bytes → Bytes → Bytes
unfolding text_of confirmed
moved_page what name preposition target view = confirmed (
    text_of (
      bytes "<!DOCTYPE html>\n<html>\n<body>\n<p>Moved "
      ∷ what
      ∷ bytes " <strong>"
      ∷ name
      ∷ bytes "</strong> "
      ∷ preposition
      ∷ bytes " <strong>"
      ∷ shown_target target
      ∷ bytes "</strong>.</p>\n<p><a href='/list?folder="
      ∷ target
      ∷ bytes "'>"
      ∷ view
      ∷ bytes "</a></p>\n</body>\n</html>\n"
      ∷ []))

-- Some item of a list has this name in its folder.
unfoldable pub has_name : Bytes → List Bytes → Bool
unfolding local_name
has_name name [] = false
has_name name (item ∷ items) = bytes_eq (local_name item) name || has_name name items

-- The items of a list whose marker is that of a folder.
unfoldable pub folders_of : {S : Type 0} → Disk S → S → List Bytes → List Bytes
folders_of disk s [] = []
folders_of disk s (path ∷ paths) =
    let rest = folders_of disk s paths in if is_folder (disk.get s path) then path ∷ rest else rest

-- The folders in a folder; an error text and an empty list name none.
unfoldable pub subfolders : {S : Type 0} → Disk S → S → Bytes → List Bytes
unfolding listing split_string folders_of
subfolders disk s folder =
    let list : Bytes = disk.get s (listing folder) in
    if is_err list || is_blank list then [] else folders_of disk s (split_string b',' list)

folder_items : Bytes → Bytes → Bytes → List Bytes → Bytes
unfolding folder_item
folder_items action inputs link [] = []
folder_items action inputs link (path ∷ paths) =
    folder_item action inputs link path ++ folder_items action inputs link paths

move_file_page : {S : Type 0} → Disk S → S → Map Bytes → Bytes
unfolding field subfolders page_head hidden home_item folder_items up_or_cancel text_of confirmed
move_file_page disk s params =
    let source : Bytes = field (bytes "folder") params in
    let filename : Bytes = field (bytes "filename") params in
    let current : Bytes = field (bytes "currentFolder") params in
    let inputs : Bytes =
      hidden (bytes "'sourceFolder'") source ++ hidden (bytes "'filename'    ") filename in
    let link : Bytes =
      text_of (bytes "/moveFile?folder=" ∷ source ∷ bytes "&filename=" ∷ filename ∷ []) in
    let action : Bytes = bytes "/moveFile" in
    confirmed (
      text_of (
        page_head (bytes "Move File")
        ∷ bytes "  <h1>Move file <strong>"
        ∷ filename
        ∷ bytes "</strong> into:</h1>\n  <p>Current target: <strong>"
        ∷ shown_target current
        ∷ bytes "</strong></p>\n  <ul>\n"
        ∷ home_item action inputs
        ∷ folder_items action inputs link (subfolders disk s current)
        ∷ bytes "  </ul>\n"
        ∷ up_or_cancel link current source
        ∷ bytes "</body>\n</html>\n"
        ∷ []))

-- The file of the form; its target need not be a folder.
unfoldable pub post_move_file : {S : Type 0} → ℕ → Disk S → S → Map Bytes → Option (S × Bytes)
unfolding field bad_request path_in move_file moved_page
post_move_file fuel disk s fields =
    let filename : Bytes = field (bytes "filename") fields in
    let target : Bytes = field (bytes "targetFolder") fields in
    elim (is_blank filename) [
      | true ↦ some (s, bad_request (bytes "Missing filename or target folder."))
      | false ↦
          elim (move_file disk fuel s (path_in (field (bytes "sourceFolder") fields) filename)
            target) [
              | none ↦ none
              | some s1 ↦
                  some (
                    s1,
                    moved_page (bytes "file") filename (bytes "to") target (bytes "View Folder"),
                  )
            ]
    ]

move_folder_page : {S : Type 0} → Disk S → S → Map Bytes → Bytes
unfolding field subfolders page_head hidden home_item folder_items up_or_cancel parent_of text_of
    confirmed
move_folder_page disk s params =
    let source : Bytes = field (bytes "folder") params in
    let current : Bytes = field (bytes "currentFolder") params in
    let inputs : Bytes = hidden (bytes "'folder'") source in
    let link : Bytes = bytes "/moveFolder?folder=" ++ source in
    let action : Bytes = bytes "/moveFolder" in
    confirmed (
      text_of (
        page_head (bytes "Move Folder")
        ∷ bytes "  <h1>Move folder <strong>"
        ∷ source
        ∷ bytes "</strong> into:</h1>\n  <p>Current target: <strong>"
        ∷ shown_target current
        ∷ bytes "</strong></p>\n  <ul>\n"
        ∷ home_item action inputs
        ∷ folder_items action inputs link (subfolders disk s current)
        ∷ bytes "  </ul>\n"
        ∷ up_or_cancel link current (parent_of source)
        ∷ bytes "</body>\n</html>\n"
        ∷ []))

-- Not into itself or what is in it, not onto a name that the target lists.
unfoldable pub post_move_folder : {S : Type 0} → ℕ → Disk S → S → Map Bytes → Option (S × Bytes)
unfolding field begins bad_request listing split_string has_name local_name move_folder moved_page
    text_of
post_move_folder fuel disk s fields =
    let source : Bytes = field (bytes "folder") fields in
    let target : Bytes = field (bytes "targetFolder") fields in
    let read : Bytes = disk.get s (listing target) in
    let name : Bytes = local_name source in
    if bytes_eq target source || begins (source ++ b'/' ∷ []) target
    then some (s, bad_request (bytes "Cannot move a folder into itself."))
    else if has_name name (split_string b',' (if is_err read then [] else read))
    then some (
      s,
      bad_request (
          text_of (
            bytes "Cannot move: a folder or file named <strong>"
            ∷ name
            ∷ bytes "</strong> already exists in the destination."
            ∷ [])),
    )
    else if is_blank source
    then some (s, bad_request (bytes "Missing source or target folder."))
    else elim (move_folder disk fuel s source target) [
      | none ↦ none
      | some s1 ↦
          some (
            s1,
            moved_page (bytes "folder") source (bytes "into") target (bytes "View Destination"),
          )
    ]

module _ {S : Type 0} (service : Service S) where
  unfoldable pub web_storage_move_file : ℕ → S → Bytes → Bytes → List Bytes → Option (S × Bytes)
  unfolding with_client begins url_params parse_query_params read_request_body move_file_page
      post_move_file
  web_storage_move_file fuel s username request reads = with_client service s username λ disk s1.
      if begins (bytes "POST /moveFile") request
      then elim (parse_query_params (read_request_body request reads)) [
        | none ↦ none
        | some fields ↦ post_move_file fuel disk s1 fields
      ]
      else elim (url_params request) [
        | none ↦ none
        | some params ↦ some (s1, move_file_page disk s1 params)
      ]

  unfoldable pub web_storage_move_folder : ℕ → S → Bytes → Bytes → List Bytes → Option (S × Bytes)
  unfolding with_client begins url_params parse_query_params read_request_body move_folder_page
      post_move_folder
  web_storage_move_folder fuel s username request reads = with_client service s username λ disk s1.
      if begins (bytes "POST /moveFolder") request
      then elim (parse_query_params (read_request_body request reads)) [
        | none ↦ none
        | some fields ↦ post_move_folder fuel disk s1 fields
      ]
      else elim (url_params request) [
        | none ↦ none
        | some params ↦ some (s1, move_folder_page disk s1 params)
      ]
