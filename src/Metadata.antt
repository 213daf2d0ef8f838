-- ===== src/Metadata.antt =====
-- Query strings and the metadata of mails, utils/utils.cc. A `std::map` is read by its keys only.
pub mod Fields
pub mod Query
use Prim.Native.String.{String}
use penn_cloud.Prelude.{
  ℕ, zero, suc, Bytes, bytes, Option, none, some, List, [], ◌∷◌, ◌++◌, length, getlines,
}
use mathlib.Core.List.{reverse}
use penn_cloud.Map.{Map, insert}
use penn_cloud.TextServer.{cut}

-- The loop over the query, from `start` on. A round passes an equals sign at least, so the length
-- of the query is enough fuel.
unfoldable pub parse_query_from : ℕ → Map Bytes → Bytes → Map Bytes
unfolding cut
parse_query_from zero params query = params
parse_query_from (suc fuel) params query = elim (cut b'=' query) [
  | none ↦ params
  | some (key, rest) ↦ elim (cut b'&' rest) [
    | none ↦ insert key rest params
    | some (value, after) ↦ parse_query_from fuel (insert key value params) after
  ]
]

unfoldable pub parse_query_string : Bytes → Map Bytes
unfolding parse_query_from
parse_query_string query = parse_query_from (length query) [] query

-- A token of the metadata: a header with a colon, or nothing.
unfoldable pub add_header : Map Bytes → Bytes → Map Bytes
unfolding cut
add_header headers token = elim (cut b':' token) [
  | none ↦ headers
  | some (key, value) ↦ insert key value headers
]

unfoldable pub add_headers : Map Bytes → List Bytes → Map Bytes
unfolding add_header
add_headers headers [] = headers
add_headers headers (token ∷ tokens) = add_headers (add_header headers token) tokens

unfoldable pub parse_metadata : Bytes → Map Bytes
unfolding add_headers
parse_metadata meta = add_headers [] (getlines b';' meta)

-- `<< "name:" << value << ";"`
abbrev header : String → Bytes → Bytes → Bytes
header name value rest = (bytes name ++ b':' ∷ value) ++ b';' ∷ rest

unfoldable pub create_metadata : Bytes → Bytes → Bytes → Bytes → Bytes
create_metadata sender recipient subject timestamp =
    header "sender" sender
      (header "recipient" recipient (header "subject" subject (header "timestamp" timestamp [])))

unfoldable pub encrypt_metadata : Bytes → Bytes
encrypt_metadata metadata = reverse metadata

unfoldable pub decrypt_metadata : Bytes → Bytes
decrypt_metadata encrypted = reverse encrypted
