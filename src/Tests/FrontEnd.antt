-- ===== src/Tests/FrontEnd.antt =====
-- The programs that use the store, on a single node, and the text protocols.
use penn_cloud.Prelude.{
  ℕ, ◌==◌, arith, Bytes, bytes, bytes_eq, ◌≡◌, refl, Bool, false, none, some, List, [], ◌∷◌, All,
  if◌then◌else◌,
}
use penn_cloud.Map.{lookup, insert}
use penn_cloud.Tablet
use penn_cloud.Tablet.{Tablet, cell}
use penn_cloud.KeyValue.{KeyValue}
use penn_cloud.Service.{Serves, is_err}
use penn_cloud.SingleNode.{read_reply}
use penn_cloud.SingleNode.Serving.{Shows, handle_all, write_each, handle_all-Reads}
use penn_cloud.Client.Replies.{Reads}
use penn_cloud.Op.{Op, put, cput, delete}
use penn_cloud.Tests.SingleHost.{service, At, service-Serves}
use penn_cloud.Account.{user_row, password_column, authenticate, change_password}
use penn_cloud.Account.Logins.{accepts, change_password-authenticate}
use penn_cloud.Mailbox.{meta, text}
use penn_cloud.Mailbox.Ids.{IsId}
use penn_cloud.Balancer.{select_frontend}
use penn_cloud.Balancer.Rounds.{select_frontend_lem}
use penn_cloud.TextServer.{
  process_message, going_on, handle_get, handle_put, handle_cput, handle_delete,
}
use penn_cloud.TextServer.Lines.{message, join, process_message-handlers, process_message-blank}
use penn_cloud.Metadata.{parse_metadata, decrypt_metadata, encrypt_metadata, create_metadata}
use penn_cloud.Metadata.Fields.{parse_metadata-create_metadata}

abbrev host : Bytes
host = bytes "127.0.0.1:50051"

host-not_err : is_err host ≡ false
unfolding is_err bytes_eq
host-not_err = refl

-- A value that is put, changed and put back, and one that is deleted.
abbrev some_writes : List Op
some_writes =
    put (bytes "r") (bytes "c") (bytes "v")
    ∷ cput (bytes "r") (bytes "c") (bytes "v") (bytes "w")
    ∷ cput (bytes "r") (bytes "c") (bytes "v") (bytes "x")
    ∷ put (bytes "r") (bytes "d") (bytes "y")
    ∷ delete (bytes "r") (bytes "d")
    ∷ []

handle_all-Reads_example :
    Reads
      (read_reply (bytes "r") (bytes "c") (handle_all some_writes []))
      (write_each some_writes (λ a b. none) (bytes "r") (bytes "c"))
handle_all-Reads_example = handle_all-Reads some_writes (bytes "r") (bytes "c")

node-Serves : Serves (service host) Shows At
node-Serves = service-Serves host host-not_err

abbrev nothing : KeyValue
nothing r c = none

empty-Shows : Shows [] nothing
unfolding cell lookup
empty-Shows r c = refl

-- A store with one user.
abbrev one_user : Tablet
one_user = Tablet.put (user_row (bytes "ann")) password_column (bytes "pw") []

abbrev one_user_map : KeyValue
one_user_map r c = cell r c one_user

one_user-Shows : Shows one_user one_user_map
one_user-Shows r c = refl

one_user-password : one_user_map (user_row (bytes "ann")) password_column ≡ some (bytes "pw")
unfolding cell lookup insert bytes_eq Tablet.put Tablet.row_of
one_user-password = refl

pw-not_err : is_err (bytes "pw") ≡ false
unfolding is_err bytes_eq
pw-not_err = refl

change_password-authenticate_example :
    let changed =
      change_password (service host) one_user (bytes "ann") (bytes "pw") (bytes "new") in
    let known = bytes_eq (bytes "pw") (bytes "pw") in
    (changed.1 ≡ (if known then 0 else 2))
    × ((authenticate (service host) changed.0 (bytes "ann") (bytes "new")).1
        ≡ accepts (some (if known then bytes "new" else bytes "pw")) (bytes "new"))
change_password-authenticate_example =
    change_password-authenticate (service host) Shows At node-Serves one_user one_user_map
      (bytes "ann") (bytes "pw") (bytes "pw") (bytes "new") (bytes "new") one_user-Shows
      one_user-password pw-not_err

-- A mailbox with two mails.
abbrev two_ids : List Bytes
two_ids = bytes ";a" ∷ bytes ";b" ∷ []

abbrev mailbox : Tablet
mailbox = Tablet.put (bytes "inbox_email:ann") meta (text two_ids) []

two_ids-not_err : is_err (text two_ids) ≡ false
unfolding is_err bytes_eq text
two_ids-not_err = refl

two_ids-blank : bytes_eq (bytes ";a") [] ≡ false × bytes_eq (bytes ";b") [] ≡ false
unfolding bytes_eq
two_ids-blank = (refl, refl)

abbrev inbox : Bytes
inbox = bytes "inbox_email:ann"

abbrev mailbox_map : KeyValue
mailbox_map r c = cell r c mailbox

mailbox-meta : mailbox_map inbox meta ≡ some (text two_ids)
unfolding cell lookup insert bytes_eq Tablet.put Tablet.row_of
mailbox-meta = refl

two_ids-IsId : All IsId two_ids
two_ids-IsId = ((two_ids-blank.0, (refl, (refl, tt))), ((two_ids-blank.1, (refl, (refl, tt))), tt))

-- The server at place 1 is alive.
abbrev only_second : ℕ → Bool
only_second idx = idx == 1

select_frontend_lem_example : select_frontend only_second 2 ≡ (
    if only_second 2
    then (0, some 2)
    else if only_second 0
    then (1, some 0)
    else if only_second 1
    then (2, some 1)
    else (2, none))
select_frontend_lem_example = select_frontend_lem only_second 2 (omega arith)

process_message-handlers_example :
    (process_message [] (message (bytes "GET") (join (bytes "r" ∷ []) (bytes "v")))
      ≡ going_on (handle_get [] (bytes "r") (bytes "v")))
    × (process_message [] (message (bytes "PUT") (join (bytes "r" ∷ bytes "c" ∷ []) (bytes "v")))
        ≡ going_on (handle_put [] (bytes "r") (bytes "c") (bytes "v")))
    × (process_message []
          (message (bytes "CPUT") (join (bytes "r" ∷ bytes "c" ∷ [] ∷ []) (bytes "v")))
        ≡ going_on (handle_cput [] (bytes "r") (bytes "c") [] (bytes "v")))
    × (process_message [] (message (bytes "DELETE") (join (bytes "r" ∷ []) (bytes "v")))
        ≡ going_on (handle_delete [] (bytes "r") (bytes "v")))
process_message-handlers_example =
    process_message-handlers [] (bytes "r") (bytes "c") [] b'v' []
      ((refl, tt), ((refl, tt), (tt, ((refl, tt), tt))))

process_message-blank_example :
    process_message [] (message (bytes "PUT") (join (bytes "r" ∷ bytes "c" ∷ []) [])) ≡ none
process_message-blank_example =
    process_message-blank [] (bytes "r") (bytes "c") ((refl, tt), ((refl, tt), tt))

parse_metadata-create_metadata_example :
    let headers = parse_metadata (
      decrypt_metadata
        (encrypt_metadata (create_metadata (bytes "a") (bytes "b") (bytes ":") (bytes "1")))) in
    (lookup (bytes "sender") headers ≡ some (bytes "a"))
    × (lookup (bytes "recipient") headers ≡ some (bytes "b"))
    × (lookup (bytes "subject") headers ≡ some (bytes ":"))
    × (lookup (bytes "timestamp") headers ≡ some (bytes "1"))
parse_metadata-create_metadata_example =
    parse_metadata-create_metadata (bytes "a") (bytes "b") (bytes ":") (bytes "1")
      ((refl, tt), ((refl, tt), ((refl, tt), ((refl, tt), tt))))
