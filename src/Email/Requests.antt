-- ===== src/Email/Requests.antt =====
-- `handleRequest` of frontend/email/email_service.cc: the methods by the path of a request.
use penn_cloud.Prelude.{
  Bytes, bytes, bytes_eq, Bool, none, some, List, [], ◌++◌, ◌&&◌, if◌then◌else◌, contains,
}
use penn_cloud.Map.{Map, lookup}
use penn_cloud.Service.{Service}
use penn_cloud.Metadata.{parse_query_string}
use penn_cloud.Email.Decoding.{url_decode}
use penn_cloud.Email.Forms.{render_compose}
use penn_cloud.Email.Mails.{
  Clock, render_inbox, send_email, view_email, delete_email, render_reply_compose,
  render_forward_compose,
}

-- The user whose mailbox is meant, which the query tells.
unfoldable pub mailbox_user : Map Bytes → Bytes
unfolding lookup url_decode contains
mailbox_user params =
    let username : Bytes = elim (lookup (bytes "username") params) [
      | none ↦ bytes "test"
      | some name ↦ url_decode name
    ] in
    if contains (bytes "@") username then username else username ++ bytes "@localhost"

unfoldable pub email_id : Map Bytes → Bytes
unfolding lookup url_decode
email_id params = elim (lookup (bytes "id") params) [ none ↦ bytes "1" | some id ↦ url_decode id ]

unfoldable pub folder_of : Map Bytes → Bytes
unfolding lookup
folder_of params = elim (lookup (bytes "folder") params) [
  | none ↦ bytes "inbox"
  | some folder ↦ folder
]

-- Nothing was sent.
abbrev pub unsent : {S : Type 0} → S × Bytes → S × Bytes × List Bytes
unsent (s, page) = (s, page, [])

-- The store, the page, and what was sent to the SMTP server.
unfoldable pub handle_request :
    {S : Type 0}
    → Service S
    → Clock
    → Bool
    → S
    → Bytes
    → Bytes
    → Bytes
    → Bytes
    → S × Bytes × List Bytes
unfolding parse_query_string mailbox_user email_id folder_of render_inbox send_email view_email
    render_compose delete_email render_reply_compose render_forward_compose
handle_request service clock connects s path req_type query post_data =
    let params : Map Bytes = parse_query_string query in
    let username : Bytes = mailbox_user params in
    let folder : Bytes = folder_of params in
    let id : Bytes = email_id params in
    let get : Bool = bytes_eq req_type (bytes "GET") in
    let post : Bool = bytes_eq req_type (bytes "POST") in
    if bytes_eq path (bytes "/inbox") && get
    then unsent (render_inbox service s username)
    else if bytes_eq path (bytes "/send") && post
    then send_email service clock connects s post_data
    else if bytes_eq path (bytes "/email") && get
    then unsent (view_email service s username id folder)
    else if bytes_eq path (bytes "/compose") && get
    then (s, render_compose username, [])
    else if bytes_eq path (bytes "/delete") && post
    then unsent (delete_email service s username id folder)
    else if bytes_eq path (bytes "/reply") && get
    then unsent (render_reply_compose service s username id folder)
    else if bytes_eq path (bytes "/forward") && get
    then unsent (render_forward_compose service s username id folder)
    else (s, bytes "Invalid path", [])
