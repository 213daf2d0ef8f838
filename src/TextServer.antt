-- ===== src/TextServer.antt =====
-- The two programs of backend/key_val_store.cc: a server for a line protocol, here, and one for a
-- single command to a connection (`TextServer.Commands`). What is read from a socket in one go is
-- one message, and what a handler writes to the socket is its reply.
pub mod Commands
pub mod Lines
use penn_cloud.Prelude.{
  ℕ, ◌-◌, Bytes, bytes, bytes_eq, Bool, true, false, Option, none, some, List, [], ◌∷◌, ◌++◌, take,
  length, ltb, ◌==◌, getlines, if◌then◌else◌,
}
use penn_cloud.Tablet
use penn_cloud.Tablet.{
  Tablet, no_row, no_column, value, CputResult, row_missing, column_missing, value_differs, stored,
}

unfoldable pub crlf : Bytes
crlf = 13 ∷ 10 ∷ []

-- Messages are read until one is the greeting; the replies to those before it, and what follows.
-- Without a greeting the server waits on.
expect_hello : List Bytes → List Bytes × Option (List Bytes)
unfolding crlf
expect_hello [] = ([], none)
expect_hello (message ∷ messages) =
    let rest = expect_hello messages in
    if bytes_eq message (bytes "HELLO" ++ crlf)
    then ((bytes "+OK Server Ready" ++ crlf) ∷ [], some messages)
    else ((bytes "-ERR Invalid command, start with HELLO" ++ crlf) ∷ rest.0, rest.1)

unfoldable pub handle_get : Tablet → Bytes → Bytes → Tablet × Bytes
unfolding crlf
handle_get t row col = elim (Tablet.get row col t) [
  | no_row ↦ (t, bytes "-ERR Row does not exist" ++ crlf)
  | no_column ↦ (t, bytes "-ERR Column does not exist" ++ crlf)
  | value v ↦ (t, (bytes "+OK" ++ 10 ∷ []) ++ (v ++ crlf))
]

unfoldable pub handle_put : Tablet → Bytes → Bytes → Bytes → Tablet × Bytes
unfolding crlf
handle_put t row col v = (Tablet.put row col v t, bytes "+OK" ++ crlf)

cput_reply : Tablet → CputResult → Tablet × Bytes
unfolding crlf
cput_reply t row_missing = (t, bytes "-ERR Row does not exist" ++ crlf)
cput_reply t column_missing = (t, bytes "-ERR Column does not exist" ++ crlf)
cput_reply t value_differs =
    (t, bytes "-ERR Current value is different from provided value" ++ crlf)
cput_reply t (stored u) = (u, bytes "+OK" ++ crlf)

unfoldable pub handle_cput : Tablet → Bytes → Bytes → Bytes → Bytes → Tablet × Bytes
unfolding cput_reply
handle_cput t row col current new = cput_reply t (Tablet.cput row col current new t)

unfoldable pub handle_delete : Tablet → Bytes → Bytes → Tablet × Bytes
unfolding crlf
handle_delete t row col = (Tablet.delete row col t, bytes "+OK" ++ crlf)

-- The text before the first `d` and the text behind it.
unfoldable pub cut : ℕ → Bytes → Option (Bytes × Bytes)
cut d [] = none
cut d (x ∷ s) =
    let rest = cut d s in
    if x == d
    then some ([], s)
    else elim rest [ none ↦ none | some (before, after) ↦ some (x ∷ before, after) ]

-- `message.substr(0, pos)` and `message.substr(pos + 1)`, where `npos + 1` is 0.
command_of : Bytes → Option (Bytes × Bytes) → Bytes × Bytes
command_of message none = (message, message)
command_of message (some parts) = parts

-- `s.substr(0, s.size() - 2)`; the difference wraps for a text of less than two bytes.
without_end : Bytes → Bytes
without_end s = if ltb (length s) 2 then s else take (length s - 2) s

-- The tablet, the reply and `*quit`; `none` is the exception of `params.at`.
pub record Processed : Type 0 where
  pub tablet : Tablet
  pub reply : Bytes
  pub quit : Bool

unfoldable pub going_on : Tablet × Bytes → Option Processed
going_on (t, text) = some (record { tablet = t; reply = text; quit = false })

-- The handlers, on as many parameters as they ask for.
get_params : Tablet → List Bytes → Option Processed
unfolding handle_get going_on
get_params t (row ∷ col ∷ _) = going_on (handle_get t row col)
get_params t _ = none

put_params : Tablet → List Bytes → Option Processed
unfolding handle_put going_on
put_params t (row ∷ col ∷ v ∷ _) = going_on (handle_put t row col v)
put_params t _ = none

cput_params : Tablet → List Bytes → Option Processed
unfolding handle_cput going_on
cput_params t (row ∷ col ∷ current ∷ new ∷ _) = going_on (handle_cput t row col current new)
cput_params t _ = none

delete_params : Tablet → List Bytes → Option Processed
unfolding handle_delete going_on
delete_params t (row ∷ col ∷ _) = going_on (handle_delete t row col)
delete_params t _ = none

-- The tests of the command; `message` is the whole message.
unfoldable pub dispatch : Tablet → Bytes → Bytes → List Bytes → Option Processed
unfolding get_params put_params cput_params delete_params going_on crlf
dispatch t message command params =
    if bytes_eq command (bytes "GET")
    then get_params t params
    else if bytes_eq command (bytes "PUT")
    then put_params t params
    else if bytes_eq command (bytes "CPUT")
    then cput_params t params
    else if bytes_eq command (bytes "DELETE")
    then delete_params t params
    else if bytes_eq message (bytes "QUIT" ++ crlf)
    then some (record { tablet = t; reply = bytes "+OK Goodbye" ++ crlf; quit = true })
    else going_on (t, bytes "-ERR Command unrecognized" ++ crlf)

unfoldable pub process_message : Tablet → Bytes → Option Processed
unfolding cut command_of without_end dispatch
process_message t message =
    let parts : Bytes × Bytes = command_of message (cut b' ' message) in
    dispatch t message parts.0 (getlines b'|' (without_end parts.1))
