-- ===== src/Storage/Requests.antt =====
-- Pages and requests of the storage.
use penn_cloud.Prelude.{
  ℕ, zero, suc, ◌+◌, ◌-◌, ◌*◌, ◌%◌, ◌/◌, ◌^◌, Bytes, bytes, Bool, true, false, Option, none, some,
  List, [], ◌∷◌, ◌++◌, ◌&&◌, ◌||◌, ◌==◌, ltb, leb, if◌then◌else◌, cut_text, cut_last, length, take,
  drop,
}
use penn_cloud.Map.{Map, lookup}
use penn_cloud.Service.{Service, is_err}
use penn_cloud.Mailbox.{is_blank}
use penn_cloud.TextServer.{crlf, cut}
use penn_cloud.Storage.Disk.{Disk, client_disk}
use penn_cloud.Storage.Names.{parse_query_params, http_response}

abbrev pub html : Bytes
html = bytes "text/html"

unfoldable pub page : Bytes → Bytes → Bytes
unfolding http_response
page status body = http_response status body html []

unfoldable pub bad_request : Bytes → Bytes
unfolding page
bad_request message =
    page (bytes "400 Bad Request") (bytes "<html><body>" ++ (message ++ bytes "</body></html>"))

unfoldable pub confirmed : Bytes → Bytes
unfolding page
confirmed body = page (bytes "200 OK") body

servers_down : Bytes
unfolding page
servers_down =
    page (bytes "503 Service Unavailable")
      (bytes "<html><body>Servers down, sorry for the inconvenience!</body></html>")

-- The table of types by the extension; lower case only after `tolower`.
unfoldable pub types : Map Bytes
types =
    (bytes ".txt", bytes "text/plain")
    ∷ (bytes ".html", bytes "text/html")
    ∷ (bytes ".htm", bytes "text/html")
    ∷ (bytes ".css", bytes "text/css")
    ∷ (bytes ".js", bytes "application/javascript")
    ∷ (bytes ".json", bytes "application/json")
    ∷ (bytes ".xml", bytes "application/xml")
    ∷ (bytes ".pdf", bytes "application/pdf")
    ∷ (bytes ".png", bytes "image/png")
    ∷ (bytes ".jpg", bytes "image/jpeg")
    ∷ (bytes ".jpeg", bytes "image/jpeg")
    ∷ (bytes ".gif", bytes "image/gif")
    ∷ (bytes ".bmp", bytes "image/bmp")
    ∷ (bytes ".webp", bytes "image/webp")
    ∷ (bytes ".svg", bytes "image/svg+xml")
    ∷ (bytes ".ico", bytes "image/x-icon")
    ∷ (bytes ".mp3", bytes "audio/mpeg")
    ∷ (bytes ".wav", bytes "audio/wav")
    ∷ (bytes ".ogg", bytes "audio/ogg")
    ∷ (bytes ".flac", bytes "audio/flac")
    ∷ (bytes ".mp4", bytes "video/mp4")
    ∷ (bytes ".mov", bytes "video/quicktime")
    ∷ (bytes ".avi", bytes "video/x-msvideo")
    ∷ (bytes ".mpeg", bytes "video/mpeg")
    ∷ (bytes ".webm", bytes "video/webm")
    ∷ (bytes ".mkv", bytes "video/x-matroska")
    ∷ []

has_slash : Bytes → Bool
has_slash [] = false
has_slash (x ∷ s) = x == b'/' || x == b'\\' || has_slash s

-- The type of the text behind the last dot, if that stands behind every slash.
unfoldable pub get_content_type : Bytes → Bytes
unfolding cut_last lookup types has_slash
get_content_type filename = elim (cut_last b'.' filename) [
  | none ↦ bytes "application/octet-stream"
  | some (base, suffix) ↦
      if has_slash suffix
      then bytes "application/octet-stream"
      else elim (lookup (b'.' ∷ suffix) types) [
        | none ↦ bytes "application/octet-stream"
        | some mime ↦ mime
      ]
]

hex_char : ℕ → ℕ
hex_char n = if ltb n 10 then 48 + n else 87 + n

-- There are at most `n` rounds after the first.
hex_digits : ℕ → ℕ → Bytes → Bytes
unfolding hex_char
hex_digits zero n acc = acc
hex_digits (suc fuel) n acc =
    let more = hex_digits fuel (n / 16) (hex_char (n % 16) ∷ acc) in
    if ltb n 16 then hex_char n ∷ acc else more

abbrev pub response_chunk : ℕ
response_chunk = 65536

-- The loop over the chunks of a body, and the chunk of length zero. A round takes one byte at least.
unfoldable pub chunked : ℕ → ℕ → Bytes → Bytes
unfolding hex_digits crlf
chunked zero size s = bytes "0" ++ (crlf ++ crlf)
chunked (suc fuel) size [] = bytes "0" ++ (crlf ++ crlf)
chunked (suc fuel) size (x ∷ s) =
    let chunk : Bytes = take size (x ∷ s) in
    hex_digits (suc (length chunk)) (length chunk) []
    ++ (crlf ++ (chunk ++ (crlf ++ chunked fuel size (drop size (x ∷ s)))))

unfoldable pub send_chunked_response : Bytes → Bytes → Bytes → Bytes → Bytes
unfolding chunked crlf
send_chunked_response status_line content_type text extra_headers =
    status_line
    ++ (crlf
        ++ (bytes "Content-Type: "
            ++ (content_type
                ++ (crlf
                    ++ (extra_headers
                        ++ (crlf
                            ++ (bytes "Transfer-Encoding: chunked"
                                ++ (crlf
                                    ++ (bytes "Connection: keep-alive"
                                        ++ (crlf
                                            ++ (crlf
                                                ++ chunked (length text) response_chunk
                                                    text)))))))))))

-- The first line of a request.
unfoldable pub request_line : Bytes → Bytes
unfolding cut_text crlf
request_line request = elim (cut_text crlf request) [ none ↦ request | some (line, rest) ↦ line ]

-- The query of the first line: from its first question mark to the next space.
unfoldable pub query_of : Bytes → Option Bytes
unfolding request_line cut
query_of request = elim (cut b'?' (request_line request)) [
  | none ↦ none
  | some (path, query) ↦ elim (cut b' ' query) [
    | none ↦ some query
    | some (before, after) ↦ some before
  ]
]

-- `params[name]`, which is empty if there is none.
unfoldable pub field : Bytes → Map Bytes → Bytes
unfolding lookup
field name params = elim (lookup name params) [ none ↦ [] | some value ↦ value ]

-- The parameters of the query; without a query there are none.
unfoldable pub url_params : Bytes → Option (Map Bytes)
unfolding query_of parse_query_params
url_params request = elim (query_of request) [
  | none ↦ some []
  | some query ↦ parse_query_params query
]

abbrev pub max_file_size : ℕ
max_file_size = 10 * 1024 * 1024

unfoldable pub is_digit : ℕ → Bool
is_digit x = leb 48 x && leb x 57

unfoldable pub skip_to_digit : Bytes → Bytes
unfolding is_digit
skip_to_digit [] = []
skip_to_digit (x ∷ s) = let rest = skip_to_digit s in if is_digit x then x ∷ s else rest

-- The number of the digits in front.
unfoldable pub leading_number : ℕ → Bytes → ℕ
unfolding is_digit
leading_number n [] = n
leading_number n (x ∷ s) =
    let more = leading_number (10 * n + (x - 48)) s in if is_digit x then more else n

-- `stoi` of the first digits behind the header's name; a number that is too large throws, and is 0.
unfoldable pub content_length : Bytes → ℕ
unfolding cut_text skip_to_digit leading_number
content_length request = elim (cut_text (bytes "Content-Length:") request) [
  | none ↦ 0
  | some (before, after) ↦
      let n : ℕ = leading_number 0 (skip_to_digit after) in if ltb n (2 ^ 31) then n else 0
]

-- Behind the first empty line; `npos + 4` is 3.
unfoldable pub body_start : Bytes → Bytes
unfolding cut_text crlf
body_start request = elim (cut_text (crlf ++ crlf) request) [
  | none ↦ drop 3 request
  | some (head, body) ↦ body
]

-- `reads` is what the calls of `read` give until there is no more.
read_more : ℕ → Bytes → List Bytes → Bytes
read_more wanted body [] = body
read_more wanted body (piece ∷ reads) =
    let more = read_more wanted (body ++ piece) reads in
    if ltb (length body) wanted && ltb (length body) max_file_size then more else body

unfoldable pub read_request_body : Bytes → List Bytes → Bytes
unfolding content_length body_start read_more
read_request_body request reads =
    let n : ℕ = content_length request in
    let wanted : ℕ = if n == 0 || ltb max_file_size n then max_file_size else n in
    read_more wanted (body_start request) reads

-- The text of a field of a form: from the first empty line behind its name to the next line end.
unfoldable pub parse_multipart_field : Bytes → Bytes → Bytes
unfolding cut_text crlf
parse_multipart_field body name =
    let pattern : Bytes = bytes "name=\"" ++ (name ++ bytes "\"") in
    elim (cut_text pattern body) [
      | none ↦ []
      | some (before, after) ↦ elim (cut_text (crlf ++ crlf) after) [
        | none ↦ []
        | some (head, value) ↦ elim (cut_text crlf value) [ none ↦ [] | some (text, rest) ↦ text ]
      ]
    ]

-- The mark between the parts of a form, with its dashes.
unfoldable pub extract_boundary : Bytes → Bytes
unfolding cut_text crlf
extract_boundary request = elim (cut_text (bytes "Content-Type: multipart/form-data;") request) [
  | none ↦ []
  | some (before, after) ↦ elim (cut_text (bytes "boundary=") after) [
    | none ↦ []
    | some (head, rest) ↦
        bytes "--" ++ elim (cut_text crlf rest) [ none ↦ rest | some (mark, more) ↦ mark ]
  ]
]

-- What stands behind the last slash or backslash.
behind_slashes : Bytes → Option Bytes
behind_slashes [] = none
behind_slashes (x ∷ s) = elim (behind_slashes s) [
  | some rest ↦ some rest
  | none ↦ if x == b'/' || x == b'\\' then some s else none
]

unfoldable pub parse_multipart_filename : Bytes → Bytes
unfolding cut_text cut behind_slashes
parse_multipart_filename header_part = elim (cut_text (bytes "filename=\"") header_part) [
  | none ↦ []
  | some (before, after) ↦
      let filename : Bytes = elim (cut b'"' after) [ none ↦ after | some (name, rest) ↦ name ] in
      elim (behind_slashes filename) [
        | none ↦ filename
        | some name ↦ if is_blank name then filename else name
      ]
]

-- The client of a user's row, unless the coordinator knows no server; a handler gives the state and
-- the response, or `none` for an exception.
unfoldable pub with_client :
    {S : Type 0} → Service S → S → Bytes → (Disk S → S → Option (S × Bytes)) → Option (S × Bytes)
unfolding servers_down
with_client service s username handler =
    let base_key : Bytes = username ++ bytes "-storage" in
    let (s1, worker) = service.lookup s base_key in
    elim (is_err worker) [
      | true ↦ some (s1, servers_down)
      | false ↦ handler (client_disk service worker base_key) s1
    ]
