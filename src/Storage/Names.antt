-- ===== src/Storage/Names.antt =====
-- Names, paths and lists of them, and the strings of a request.
use penn_cloud.Prelude.{
  ℕ, ◌+◌, ◌-◌, ◌*◌, ◌%◌, Bytes, bytes, Bool, true, Option, none, some, List, [], ◌∷◌, ◌++◌, ◌&&◌,
  ◌||◌, not, ◌==◌, leb, if◌then◌else◌, cut_last, getlines, to_string, length, is_space,
}
use penn_cloud.Map.{Map, insert}
use penn_cloud.Mailbox.{is_blank}
use penn_cloud.TextServer.{crlf, cut}

-- A byte in front of the first piece.
unfoldable pub extend : ℕ → List Bytes → List Bytes
extend x [] = (x ∷ []) ∷ []
extend x (piece ∷ pieces) = (x ∷ piece) ∷ pieces

-- All pieces, also an empty one at the end.
unfoldable pub split_string : ℕ → Bytes → List Bytes
unfolding extend
split_string d [] = [] ∷ []
split_string d (x ∷ s) = let rest = split_string d s in if x == d then [] ∷ rest else extend x rest

unfoldable pub behind : List Bytes → Bytes
behind [] = []
behind (item ∷ items) = b',' ∷ (item ++ behind items)

-- The loops that write a list, with a comma before each item but the first.
unfoldable pub joined : List Bytes → Bytes
unfolding behind
joined [] = []
joined (item ∷ items) = item ++ behind items

-- The name of a path: what stands behind its last slash.
unfoldable pub local_name : Bytes → Bytes
unfolding cut_last
local_name path = elim (cut_last b'/' path) [ none ↦ path | some (parent, name) ↦ name ]

unfoldable pub parent_of : Bytes → Bytes
unfolding cut_last
parent_of path = elim (cut_last b'/' path) [ none ↦ [] | some (parent, name) ↦ parent ]

-- A name in a folder; the root is the empty path.
unfoldable pub path_in : Bytes → Bytes → Bytes
path_in folder name = if is_blank folder then name else folder ++ b'/' ∷ name

abbrev pub metadata_column : Bytes → Bytes
metadata_column path = path ++ bytes "-metadata"

abbrev pub content_column : Bytes → Bytes
content_column path = path ++ bytes "-content"

-- The column that lists a folder.
unfoldable pub listing : Bytes → Bytes
listing folder = if is_blank folder then bytes "metadata" else metadata_column folder

is_name_byte : ℕ → Bool
is_name_byte x =
    (leb b'A' x && leb x b'Z')
    || (leb b'a' x && leb x b'z')
    || (leb b'0' x && leb x b'9')
    || x == b'('
    || x == b')'
    || x == b'_'
    || x == b' '

all_name_bytes : Bytes → Bool
unfolding is_name_byte
all_name_bytes [] = true
all_name_bytes (x ∷ s) = is_name_byte x && all_name_bytes s

is_word : Bytes → Bool
unfolding all_name_bytes
is_word s = not (is_blank s) && all_name_bytes s

-- Letters, digits, parentheses, underscores and spaces, with a dot between two of them at most.
unfoldable pub is_valid_name : Bytes → Bool
unfolding is_word cut
is_valid_name s = elim (cut b'.' s) [
  | none ↦ is_word s
  | some (before, after) ↦ is_word before && is_word after
]

-- The extension with its dot; a dot at the end is none.
extension : Bytes → Bytes
unfolding cut_last
extension name = elim (cut_last b'.' name) [
  | none ↦ []
  | some (base, suffix) ↦ if is_blank suffix then [] else b'.' ∷ suffix
]

unfoldable pub ensure_same_extension : Bytes → Bytes → Bytes
unfolding extension cut_last
ensure_same_extension old_name new_name =
    let ext_old : Bytes = extension old_name in
    elim (cut_last b'.' new_name) [
      | none ↦ new_name ++ ext_old
      | some (base, suffix) ↦
          if is_blank ext_old
          then base
          else if is_blank suffix
          then new_name ++ ext_old
          else base ++ ext_old
    ]

-- The value of a hexadecimal digit.
unfoldable pub hex_digit : ℕ → Option ℕ
hex_digit x =
    if leb b'0' x && leb x b'9'
    then some (x - b'0')
    else if leb b'A' x && leb x b'F'
    then some (x - 55)
    else if leb b'a' x && leb x b'f'
    then some (x - 87)
    else none

-- `std::stoi(hex, nullptr, 16)` on two bytes, cut to one byte: a first byte that is white space or a
-- sign is passed over, and a second one that is no digit ends the number. It throws without a digit.
unfoldable pub stoi_16 : ℕ → ℕ → Option ℕ
unfolding hex_digit is_space
stoi_16 x y = elim (hex_digit x) [
  | some a ↦ elim (hex_digit y) [ some b ↦ some (16 * a + b) | none ↦ some a ]
  | none ↦ elim (hex_digit y) [
    | none ↦ none
    | some b ↦
        if is_space x || x == b'+'
        then some b
        else if x == b'-'
        then some ((256 - b) % 256)
        else none
  ]
]

-- One byte in front of the rest, if that does not throw.
then_byte : ℕ → Option Bytes → Option Bytes
then_byte x none = none
then_byte x (some s) = some (x ∷ s)

unfoldable pub url_decode2 : Bytes → Option Bytes
unfolding stoi_16 then_byte
url_decode2 [] = some []
url_decode2 (p ∷ x ∷ y ∷ s) =
    let after = url_decode2 s in
    let rest = url_decode2 (x ∷ y ∷ s) in
    if p == b'%'
    then elim (stoi_16 x y) [ none ↦ none | some v ↦ then_byte v after ]
    else then_byte (if p == b'+' then b' ' else p) rest
url_decode2 (p ∷ s) = then_byte (if p == b'+' then b' ' else p) (url_decode2 s)

unfoldable pub add_params : Map Bytes → List Bytes → Map Bytes
unfolding cut insert
add_params params [] = params
add_params params (pair ∷ pairs) = elim (cut b'=' pair) [
  | none ↦ add_params params pairs
  | some (name, value) ↦ add_params (insert name value params) pairs
]

-- The whole query is decoded before it is cut into its parameters.
unfoldable pub parse_query_params : Bytes → Option (Map Bytes)
unfolding url_decode2 add_params getlines
parse_query_params query = elim (url_decode2 query) [
  | none ↦ none
  | some decoded ↦ some (add_params [] (getlines b'&' decoded))
]

unfoldable pub http_response : Bytes → Bytes → Bytes → Bytes → Bytes
unfolding crlf to_string
http_response status body content_type extra_headers =
    bytes "HTTP/1.1 "
    ++ (status
        ++ (crlf
            ++ (bytes "Content-Type: "
                ++ (content_type
                    ++ (crlf
                        ++ (bytes "Content-Length: "
                            ++ (to_string (length body)
                                ++ (crlf
                                    ++ (extra_headers
                                        ++ (bytes "Connection: keep-alive"
                                            ++ (crlf ++ (crlf ++ body))))))))))))
