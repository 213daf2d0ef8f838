-- ===== src/Http/Pages.antt =====
-- The fixed pages of frontend/http_server.cc, and the files that it serves.
use penn_cloud.Prelude.{
  ℕ, ◌-◌, Bytes, bytes, bytes_eq, Bool, Option, none, some, List, [], ◌∷◌, ◌++◌, ◌||◌, not, leb,
  if◌then◌else◌, text_of, contains, length, to_string,
}
use penn_cloud.Mailbox.{is_blank}
use penn_cloud.TextServer.{cut}
use penn_cloud.Http.Headers.{http_response, get_content_type}
use penn_cloud.Http.Accounts.{head_or_all}

unfoldable pub unauthorized : Bytes
unauthorized = bytes "<html><body>Unauthorized. Please login.</body></html>"

-- `isHead`, which asks for the words anywhere in the request.
unfoldable pub asks_head : Bytes → Bool
unfolding contains
asks_head request = contains (bytes "HEAD /") request

unfoldable pub full_login_page : Bytes
unfolding http_response unauthorized
full_login_page = http_response (bytes "401 Unauthorized") unauthorized

unfoldable pub login_page : Bytes → Bytes
unfolding head_or_all asks_head unauthorized
login_page request = head_or_all (asks_head request) (bytes "401 Unauthorized") unauthorized

unfoldable pub restricted : Bytes
unfolding http_response
restricted =
    http_response (bytes "401 Unauthorized")
      (bytes "<html><body>Restricted Access. Only Admin can view this page.</body></html>")

unfoldable pub mail_refused : Bytes
unfolding http_response
mail_refused =
    http_response (bytes "401 Unauthorized")
      (bytes "<html><body>Please login to access emails.</body></html>")

-- `request[pos] - '0'` for a byte that is not below `'0'`.
unfoldable pub digit_at : Bytes → Option ℕ
digit_at [] = none
digit_at (x ∷ s) = if leb b'0' x then some (x - b'0') else none

-- The third piece is asked for as well, so a line of less than three throws or worse.
unfoldable pub three_pieces : List Bytes → Option Bytes
three_pieces (method ∷ path ∷ version ∷ _) = some path
three_pieces _ = none

-- The path from its first slash on, and the page of the root.
unfoldable pub get_path : Bytes → Bytes
unfolding cut
get_path target =
    let path : Bytes = elim (cut b'/' target) [
      | none ↦ bytes "/"
      | some (before, rest) ↦ b'/' ∷ rest
    ] in
    if bytes_eq path (bytes "/") then bytes "/index.html" else path

-- HEAD keeps what stands before the slash.
unfoldable pub head_path : Bytes → Bytes
unfolding contains
head_path target =
    if not (contains (bytes "/") target) || bytes_eq target (bytes "/")
    then bytes "/index.html"
    else target

unfoldable pub missing_file : Bytes
missing_file =
    bytes
      "HTTP/1.1 404 Not Found\r\nContent-Type: text/plain\r\nContent-Length: 0\r\nConnection: keep-alive\r\n\r\n"

unfoldable pub get_file_page : (Bytes → Bytes) → Bytes → Bytes
unfolding get_path missing_file get_content_type text_of to_string
get_file_page files target =
    let path : Bytes = bytes "../frontend/web_pages" ++ get_path target in
    let content : Bytes = files path in
    if is_blank content
    then missing_file
    else text_of (
        bytes "HTTP/1.1 200 OK\r\n"
        ∷ bytes "content-type: "
        ∷ get_content_type path
        ∷ bytes "\r\n"
        ∷ bytes "content-length: "
        ∷ to_string (length content)
        ∷ bytes "\r\nConnection: keep-alive\r\n\r\n"
        ∷ content
        ∷ [])

unfoldable pub head_file_page : (Bytes → Bytes) → Bytes → Bytes
unfolding head_path missing_file get_content_type text_of to_string
head_file_page files target =
    let path : Bytes = bytes "../frontend/web_pages" ++ head_path target in
    let content : Bytes = files path in
    if is_blank content
    then missing_file
    else text_of (
        bytes "HTTP/1.1 200 OK\r\n"
        ∷ bytes "Content-Type: "
        ∷ get_content_type path
        ∷ bytes "\r\n"
        ∷ bytes "Content-Length: "
        ∷ to_string (length content)
        ∷ bytes "\r\nConnection: keep-alive\r\n\r\n"
        ∷ [])

-- The query of the URL, with the user unless it names one.
unfoldable pub inbox_query : Bytes → Bytes → Bytes
unfolding cut contains
inbox_query url username = elim (cut b'?' url) [
  | none ↦ bytes "username=" ++ username
  | some (path, query) ↦
      if contains (bytes "username=") query
      then query
      else query ++ (bytes "&username=" ++ username)
]
