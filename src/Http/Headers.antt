-- ===== src/Http/Headers.antt =====
-- Requests and responses of frontend/http_server.cc.
pub mod Bounds
use penn_cloud.Prelude.{
  ℕ, ◌+◌, ◌*◌, Bytes, bytes, bytes_eq, Bool, Option, none, some, List, [], ◌∷◌, ◌++◌, ◌==◌, ltb,
  if◌then◌else◌, text_of, begins, cut_text, cut_last, getlines, length, to_string, drop,
}
use penn_cloud.Map.{Map, lookup}
use penn_cloud.Mailbox.{is_blank}
use penn_cloud.TextServer.{crlf, cut}
use penn_cloud.Storage.Names.{add_params}
use penn_cloud.Storage.Requests.{request_line, body_start, skip_to_digit}
use penn_cloud.Admin.Control.{number_of}

unfoldable pub build_http_header : Bytes → Bytes → ℕ → Bytes → Bytes
unfolding text_of to_string crlf
build_http_header status content_type content_length extra_headers = text_of (
    bytes "HTTP/1.1 "
    ∷ status
    ∷ crlf
    ∷ bytes "Content-Type: "
    ∷ content_type
    ∷ crlf
    ∷ bytes "Content-Length: "
    ∷ to_string content_length
    ∷ crlf
    ∷ extra_headers
    ∷ bytes "Connection: keep-alive\r\n\r\n"
    ∷ [])

abbrev pub html : Bytes
html = bytes "text/html"

unfoldable pub http_response : Bytes → Bytes → Bytes
unfolding build_http_header
http_response status body = build_http_header status html (length body) [] ++ body

-- The text before the first `d`, or all of it.
unfoldable pub before : ℕ → Bytes → Bytes
unfolding cut
before d s = elim (cut d s) [ none ↦ s | some (text, rest) ↦ text ]

unfoldable pub extract_session_id : Bytes → Bytes
unfolding cut_text before
extract_session_id request = elim (cut_text (bytes "Cookie:") request) [
  | none ↦ []
  | some (head, cookies) ↦ elim (cut_text (bytes "session_id=") cookies) [
    | none ↦ []
    | some (others, cookie) ↦ before 13 (before b';' cookie)
  ]
]

skip_blanks : Bytes → Bytes
skip_blanks [] = []
skip_blanks (x ∷ s) = let rest = skip_blanks s in if x == b' ' then rest else x ∷ s

unfoldable pub extract_connection_header : Bytes → Bytes
unfolding cut_text skip_blanks crlf
extract_connection_header request = elim (cut_text (bytes "Connection:") request) [
  | none ↦ bytes "close"
  | some (head, after) ↦ elim (cut_text crlf (skip_blanks after)) [
    | none ↦ bytes "close"
    | some (value, rest) ↦ value
  ]
]

abbrev pub max_body_size : ℕ
max_body_size = 2 * 1024 * 1024

-- `reads` is what the calls of `read` give until there is no more.
unfoldable pub read_up_to : ℕ → Bytes → List Bytes → Bytes
read_up_to wanted body [] = body
read_up_to wanted body (piece ∷ reads) =
    let more = read_up_to wanted (body ++ piece) reads in
    if ltb (length body) wanted then more else body

-- `none` is the exception of `substr` or `stoi` where no number of an `int` follows the header.
unfoldable pub read_request_body : Bytes → List Bytes → Option Bytes
unfolding cut_text skip_to_digit number_of body_start read_up_to
read_request_body request reads =
    let content_length : Option ℕ = elim (cut_text (bytes "Content-Length:") request) [
      | none ↦ some 0
      | some (head, after) ↦ number_of (skip_to_digit after)
    ] in
    elim content_length [
      | none ↦ none
      | some n ↦
          some (
            read_up_to (if ltb max_body_size n then max_body_size else n) (body_start request)
              reads)
    ]

-- The loop that writes a slash for each `%2F`.
unfoldable pub decode_slashes : Bytes → Bytes
decode_slashes [] = []
decode_slashes (p ∷ x ∷ y ∷ s) =
    let after = decode_slashes s in
    let rest = decode_slashes (x ∷ y ∷ s) in
    if bytes_eq (p ∷ x ∷ y ∷ []) (bytes "%2F") then b'/' ∷ after else p ∷ rest
decode_slashes (p ∷ s) = p ∷ decode_slashes s

-- Nothing else of the text is decoded.
unfoldable pub parse_query_params : Bytes → Map Bytes
unfolding decode_slashes add_params getlines
parse_query_params q = add_params [] (getlines b'&' (decode_slashes q))

unfoldable pub mime_types : Map Bytes
mime_types =
    (bytes ".html", bytes "text/html")
    ∷ (bytes ".css", bytes "text/css")
    ∷ (bytes ".js", bytes "application/javascript")
    ∷ (bytes ".png", bytes "image/png")
    ∷ (bytes ".jpg", bytes "image/jpeg")
    ∷ (bytes ".jpeg", bytes "image/jpeg")
    ∷ (bytes ".gif", bytes "image/gif")
    ∷ (bytes ".txt", bytes "text/plain")
    ∷ (bytes ".json", bytes "application/json")
    ∷ (bytes ".ico", bytes "image/x-icon")
    ∷ []

unfoldable pub get_content_type : Bytes → Bytes
unfolding cut_last lookup mime_types
get_content_type path = elim (cut_last b'.' path) [
  | none ↦ bytes "application/octet-stream"
  | some (base, suffix) ↦ elim (lookup (b'.' ∷ suffix) mime_types) [
    | none ↦ bytes "application/octet-stream"
    | some content_type ↦ content_type
  ]
]

-- The text between the first and the second space of the first line; without a space it is the
-- whole line.
unfoldable pub url_of : Bytes → Bytes
unfolding request_line cut before
url_of request =
    let line : Bytes = request_line request in
    elim (cut b' ' line) [ none ↦ line | some (method, rest) ↦ before b' ' rest ]

-- What stands behind the question mark of the URL.
unfoldable pub query_string : Bytes → Bytes
unfolding url_of cut
query_string request = elim (cut b'?' (url_of request)) [ none ↦ [] | some (path, query) ↦ query ]

-- `request.substr(request.find("\r\n\r\n") + 4)` if it is found, and else nothing.
unfoldable pub post_data : Bytes → Bytes
unfolding cut_text crlf
post_data request = elim (cut_text (crlf ++ crlf) request) [ none ↦ [] | some (head, body) ↦ body ]
