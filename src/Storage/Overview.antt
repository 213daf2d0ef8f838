-- ===== src/Storage/Overview.antt =====
-- The page of a folder, webStorageList.
use penn_cloud.Prelude.{
  Bytes, bytes, bytes_eq, Option, none, some, List, [], ◌∷◌, ◌++◌, ◌||◌, ◌&&◌, not, if◌then◌else◌,
  text_of, contains,
}
use penn_cloud.Service.{Service, is_err}
use penn_cloud.Mailbox.{is_blank}
use penn_cloud.Storage.Disk.{Disk}
use penn_cloud.Storage.Names.{split_string, local_name, parent_of, path_in, listing}
use penn_cloud.Storage.Tree.{is_folder, is_file, deleted_marker}
use penn_cloud.Storage.Requests.{
  bad_request, confirmed, url_params, field, request_line, with_client,
}

folder_entry : Bytes → Bytes → Bytes
unfolding text_of
folder_entry item path = text_of (
    bytes "    <li> "
    ∷ bytes "<a href='/list?folder="
    ∷ path
    ∷ bytes "'>"
    ∷ item
    ∷ bytes "</a>"
    ∷ bytes " | <a href='/renameFolder?folder="
    ∷ path
    ∷ bytes "'>Rename</a>"
    ∷ bytes " | <a href='/moveFolder?folder="
    ∷ path
    ∷ bytes "'>Move</a>"
    ∷ bytes " | <a href='/deleteStorage?path="
    ∷ path
    ∷ bytes "'>Delete</a>"
    ∷ bytes "</li>\n"
    ∷ [])

-- The folder in the query of a link, which the root has not.
in_folder : Bytes → Bytes
in_folder folder = if is_blank folder then [] else bytes "&folder=" ++ folder

file_entry : Bytes → Bytes → Bytes → Bytes
unfolding text_of in_folder
file_entry folder item path = text_of (
    bytes "    <li> "
    ∷ item
    ∷ bytes " | <a href='/download?filename="
    ∷ item
    ∷ in_folder folder
    ∷ bytes "'>Download</a>"
    ∷ bytes " | <a href='rename?filename="
    ∷ item
    ∷ in_folder folder
    ∷ bytes "'>Rename</a>"
    ∷ bytes " | <a href='deleteStorage?path="
    ∷ path
    ∷ bytes "'>Delete</a>"
    ∷ bytes " | <a href='moveFile?filename="
    ∷ item
    ∷ in_folder folder
    ∷ bytes "'>Move</a>"
    ∷ bytes "</li>\n"
    ∷ [])

-- An entry of the list by the marker of its path; what is neither a folder nor a file is left out.
list_entry : Bytes → Bytes → Bytes → Bytes → Bytes
unfolding folder_entry file_entry
list_entry folder item path marker =
    if is_folder marker
    then folder_entry item path
    else if is_file marker
    then file_entry folder item path
    else []

unfoldable pub list_entries : {S : Type 0} → Disk S → S → Bytes → List Bytes → Bytes
unfolding local_name path_in list_entry
list_entries disk s folder [] = []
list_entries disk s folder (entry ∷ entries) =
    let item : Bytes = local_name entry in
    let path : Bytes = path_in folder item in
    let rest : Bytes = list_entries disk s folder entries in
    if is_blank entry then rest else list_entry folder item path (disk.get s path) ++ rest

unfoldable pub overview : Bytes → Bytes → Bytes → Bytes → Bytes
unfolding text_of contains parent_of
overview username folder url entries = text_of (
    bytes "<!DOCTYPE html>\n<html>\n<head>\n"
    ∷ bytes "  <meta charset='utf-8'>\n"
    ∷ bytes "  <title>Web Storage</title>\n"
    ∷ bytes "  <style>\n"
    ∷ bytes "    ul { list-style: none; padding-left: 0; }\n"
    ∷ bytes "    li { padding: 4px 0; }\n"
    ∷ bytes "    img { vertical-align: middle; margin-right: 5px; }\n"
    ∷ bytes "  </style>\n"
    ∷ bytes "</head>\n<body>\n"
    ∷ (if is_blank folder
        then text_of (bytes "  <h1>" ∷ username ∷ bytes "'s Files in Storage Home</h1>\n" ∷ [])
        else text_of (
            bytes "  <h1>"
            ∷ username
            ∷ bytes "'s Files in Folder "
            ∷ folder
            ∷ bytes "</h1>\n"
            ∷ []))
    ∷ entries
    ∷ bytes "<h2>Upload File</h2>\n"
    ∷ bytes "  <form method='POST' action='/upload' enctype='multipart/form-data'>\n"
    ∷ (if is_blank folder
        then []
        else text_of
            (bytes "    <input type='hidden' name='folder' value='" ∷ folder ∷ bytes "'>\n" ∷ []))
    ∷ bytes "    <p><label for='file'>Choose file to upload in this folder:</label>\n"
    ∷ bytes "    <input type='file' id='file' name='file'></p>\n"
    ∷ bytes
        "  <p>Valid characters in File Name: A-Z a-z 0-9 ( ) _ and space (and the . extension)</p>\n"
    ∷ bytes "    <p><input type='submit' value='Upload'></p>\n"
    ∷ bytes "  </form>\n"
    ∷ bytes "<h2>Create a Sub-folder</h2>\n"
    ∷ bytes "  <form method='POST' action='/createSubFolder'>\n"
    ∷ bytes "    <input type='hidden' name='parentFolder' value='"
    ∷ folder
    ∷ bytes "'>\n"
    ∷ bytes "  <p>Valid characters in File Name: A-Z a-z 0-9 ( ) _ and space</p>\n"
    ∷ bytes "    <p><label for='newFolder'>New Folder Name:</label>\n"
    ∷ bytes "    <input type='text' id='newFolder' name='newfolder'></p>\n"
    ∷ bytes "    <p><input type='submit' value='Create Folder'></p>\n"
    ∷ bytes "  </form>\n"
    ∷ (if contains (bytes "/") folder
        then text_of (
            bytes "<p><a href='/list?folder="
            ∷ parent_of folder
            ∷ bytes "'>Back to Parent folder</a></p>"
            ∷ [])
        else if contains (bytes "folder") url
        then bytes "<p><a href='/storage'>Back to Storage Home</a></p>"
        else [])
    ∷ bytes "<p><a href='/logout'>Logout</a></p>"
    ∷ bytes "  <br/>\n</body>\n</html>\n"
    ∷ [])

-- A folder without a list is given an empty one.
unfoldable pub list_folder : {S : Type 0} → Disk S → S → Bytes → Bytes → Bytes → S × Bytes
unfolding listing split_string list_entries bad_request confirmed overview
list_folder {S = S} disk s username folder url =
    let metadata : Bytes = disk.get s (listing folder) in
    let s1 : S = if is_err metadata then disk.put s (listing folder) [] else s in
    if not (is_blank folder) && bytes_eq (disk.get s1 folder) deleted_marker
    then (
      s1,
      bad_request
          (bytes "This folder was deleted. <p><a href='/storage'>Back to Storage Home</a></p>"),
    )
    else (
      s1,
      confirmed (
          overview username folder url (
            if is_err metadata || is_blank metadata
            then bytes "  <p>No files or folders uploaded yet.</p>\n"
            else bytes "  <ul>\n"
              ++ (list_entries disk s1 folder (split_string b',' metadata) ++ bytes "  </ul>\n"))),
    )

unfoldable pub web_storage_list : {S : Type 0} → Service S → S → Bytes → Bytes → Option (S × Bytes)
unfolding with_client url_params field list_folder request_line
web_storage_list service s username request = with_client service s username λ disk s1.
    elim (url_params request) [
      | none ↦ none
      | some params ↦
          some (list_folder disk s1 username (field (bytes "folder") params) (request_line request))
    ]
