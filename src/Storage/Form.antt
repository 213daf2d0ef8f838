-- ===== src/Storage/Form.antt =====
-- The upload of a file, from the form to the page.
use penn_cloud.Prelude.{
  text_of, ℕ, ◌+◌, ◌-◌, Bytes, bytes, Bool, Option, none, some, List, [], ◌∷◌, ◌++◌, ◌&&◌, ◌||◌,
  not, if◌then◌else◌, cut_text, contains, begins, drop, length, ltb,
}
use penn_cloud.Service.{Service}
use penn_cloud.Mailbox.{is_blank}
use penn_cloud.TextServer.{crlf, cut}
use penn_cloud.Storage.Disk.{Disk}
use penn_cloud.Storage.Names.{is_valid_name}
use penn_cloud.Storage.Files.{store_file}
use penn_cloud.Storage.Requests.{
  bad_request, confirmed, url_params, field, body_start, parse_multipart_field, extract_boundary,
  parse_multipart_filename, with_client,
}
use penn_cloud.Storage.Handlers.{shown_folder}

-- The reads go on until the last mark is there; the first test comes after one read.
read_parts : Bytes → Bytes → List Bytes → Bytes
unfolding contains
read_parts final_marker buf [] = buf
read_parts final_marker buf (piece ∷ reads) =
    let more = read_parts final_marker (buf ++ piece) reads in
    if contains final_marker (buf ++ piece) then buf ++ piece else more

-- `none` is the exception for a request without a mark.
unfoldable pub read_multipart_body : Bytes → List Bytes → Option Bytes
unfolding extract_boundary read_parts body_start crlf
read_multipart_body request reads =
    let boundary : Bytes = extract_boundary request in
    if is_blank boundary
    then none
    else some (read_parts (crlf ++ (boundary ++ bytes "--")) (body_start request) reads)

-- The text before the last place of a pattern.
unfoldable pub before_last : Bytes → Bytes → Option Bytes
unfolding begins
before_last pattern [] = none
before_last pattern (x ∷ s) = elim (before_last pattern s) [
  | some before ↦ some (x ∷ before)
  | none ↦ if begins pattern (x ∷ s) then some [] else none
]

-- Where the content begins: behind the first empty line, or behind the second one if the form has a
-- field before the file; without a second one it is `npos + 4`, which is 3, behind the first.
unfoldable pub data_start : Bool → Bytes → Option ℕ
unfolding cut_text crlf
data_start has_folder raw = elim (cut_text (crlf ++ crlf) raw) [
  | none ↦ none
  | some (head, rest) ↦
      if has_folder
      then elim (cut_text (crlf ++ crlf) rest) [
        | none ↦ some (length head + 4 + 3)
        | some (second, more) ↦ some (length head + 4 + length second + 4)
      ]
      else some (length head + 4)
]

-- The content of the file: up to the last mark, if that stands behind the beginning, or else all; a
-- beginning behind the end throws.
unfoldable pub file_data : Bytes → ℕ → Bytes → Option Bytes
unfolding before_last crlf
file_data boundary start raw =
    let all : Option Bytes = if ltb (length raw) start then none else some (drop start raw) in
    elim (before_last (crlf ++ boundary) raw) [
      | none ↦ all
      | some before ↦ if ltb (length before) start then all else some (drop start before)
    ]

-- The name in the part of the file, without what stands before its first slash. The part begins
-- behind the first mark; without one that is `npos + size`.
unfoldable pub upload_name : Bool → Bytes → Bytes → Bytes
unfolding cut_text body_start parse_multipart_filename cut
upload_name has_folder boundary request =
    let header_part : Bytes =
      if has_folder
      then elim (cut_text boundary request) [
        | none ↦ drop (length boundary - 1) request
        | some (before, after) ↦ after
      ]
      else body_start request in
    let filename : Bytes = parse_multipart_filename header_part in
    elim (cut b'/' filename) [ none ↦ filename | some (before, name) ↦ name ]

uploaded : Bytes → Bytes → Bytes
unfolding text_of confirmed
uploaded folder filename = confirmed (
    text_of (
      bytes "<html><body>Upload Result: UPLOADED<br/>File stored as <strong>"
      ∷ filename
      ∷ bytes "</strong> in folder <strong>"
      ∷ shown_folder folder
      ∷ bytes "</strong>.<br/><a href='/list?folder="
      ∷ folder
      ∷ bytes "'>Back to folder</a></body></html>"
      ∷ []))

-- The content is stored; `none` is an exception, or more numbers tried than the fuel.
unfoldable pub save : {S : Type 0} → ℕ → Disk S → S → Bytes → Bytes → Bytes → Option (S × Bytes)
unfolding store_file uploaded
save fuel disk s folder filename content = elim (store_file disk fuel s folder filename content) [
  | none ↦ none
  | some (s1, shown) ↦ some (s1, uploaded folder shown)
]

module _ {S : Type 0} (service : Service S) where
  -- The folder is that of the query, or else a field of the form. `chunked_body` is what
  -- readChunkedBodyRaw gives, for a request that announces such a body.
  unfoldable pub web_storage_upload :
      ℕ → S → Bytes → Bytes → List Bytes → Option Bytes → Option (S × Bytes)
  unfolding with_client url_params field extract_boundary bad_request parse_multipart_field cut_text
      crlf upload_name is_valid_name contains read_multipart_body data_start file_data save
  web_storage_upload fuel s username request reads chunked_body =
      with_client service s username λ disk s1. elim (url_params request) [
        | none ↦ none
        | some params ↦
            let in_query : Bytes = field (bytes "folder") params in
            let in_form : Bytes = parse_multipart_field request (bytes "folder") in
            let has_folder : Bool = is_blank in_query && not (is_blank in_form) in
            let folder : Bytes = if is_blank in_query then in_form else in_query in
            let boundary : Bytes = extract_boundary request in
            let filename : Bytes = upload_name has_folder boundary request in
            if is_blank boundary
            then some (s1, bad_request (bytes "No multipart boundary."))
            else if not (contains (crlf ++ crlf) request)
            then some (s1, bad_request (bytes "Missing header terminator."))
            else if is_blank filename || not (is_valid_name filename)
            then some (s1, bad_request (bytes "Missing file name or incorrect format of filename."))
            else elim (if contains (bytes "Transfer-Encoding: chunked") request
                then chunked_body
                else read_multipart_body request reads) [
                  | none ↦ none
                  | some raw ↦ elim (data_start has_folder raw) [
                    | none ↦ some (s1, bad_request (bytes "Malformed multipart body."))
                    | some start ↦ elim (file_data boundary start raw) [
                      | none ↦ none
                      | some content ↦ save fuel disk s1 folder filename content
                    ]
                  ]
                ]
      ]
