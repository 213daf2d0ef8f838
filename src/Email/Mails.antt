-- ===== src/Email/Mails.antt =====
-- Sending, showing and deleting mails, frontend/email/email_service.cc.
use penn_cloud.Prelude.{
  Bytes, bytes, bytes_eq, Bool, true, false, List, [], ◌∷◌, ◌++◌, not, if◌then◌else◌, contains,
}
use penn_cloud.Map.{Map}
use penn_cloud.Op.{put, delete}
use penn_cloud.Service.{Service, is_err}
use penn_cloud.Metadata.{parse_query_string, create_metadata, encrypt_metadata}
use penn_cloud.Mailbox.{meta, append_to_metadata, remove_from_metadata}
use penn_cloud.Smtp.{at_localhost, reply}
use penn_cloud.Smtp.Delivery.{inbox, sent_box}
use penn_cloud.Storage.Requests.{field}
use penn_cloud.Email.Decoding.{decode_values}
use penn_cloud.Email.Pages.{inbox_page, mail_missing, mail_page}
use penn_cloud.Email.Forms.{reply_page, forward_page, sent_page, delete_failed}

-- The two texts that `strftime` makes of the time.
pub record Clock : Type 0 where
  pub timestamp : Bytes
  pub date : Bytes

unfoldable pub is_external_email : Bytes → Bool
unfolding contains
is_external_email email = not (contains at_localhost email)

-- What is sent to the SMTP server at port 2500, whose answers are not looked at. `connects` tells
-- whether there is a connection.
unfoldable pub send_via_smtp : Bool → Bytes → Bytes → Bytes → Bytes → Bytes → List Bytes × Bool
send_via_smtp connects date sender recipient subject body =
    let headers : Bytes =
      bytes "From: "
      ++ (sender
          ++ (bytes "\nTo: "
              ++ (recipient
                  ++ (bytes "\nSubject: " ++ (subject ++ (bytes "\nDate: " ++ date)))))) in
    if connects
    then (
      reply (bytes "HELO localhost")
          ∷ reply (bytes "MAIL FROM:<" ++ (sender ++ bytes ">"))
          ∷ reply (bytes "RCPT TO:<" ++ (recipient ++ bytes ">"))
          ∷ reply (bytes "DATA")
          ∷ reply (headers ++ (13 ∷ 10 ∷ 13 ∷ 10 ∷ (body ++ 13 ∷ 10 ∷ b'.' ∷ [])))
          ∷ reply (bytes "QUIT")
          ∷ [],
      true,
    )
    else ([], false)

-- The row of a folder.
unfoldable pub folder_row : Bytes → Bytes → Bytes
folder_row username folder =
    if bytes_eq folder (bytes "sent") then sent_box username else inbox username

module _ {S : Type 0} (service : Service S) where
  -- The text of a mail and, if Put succeeded, its id in the list of the mailbox.
  unfoldable pub try_store : S → Bytes → Bytes → Bytes → S × Bool
  unfolding is_err append_to_metadata
  try_store s row id body =
      let (s1, worker) = service.lookup s row in
      let (s2, res) = service.write s1 worker (put row id body) in
      if is_err res then (s2, false) else (append_to_metadata service s2 row id, true)

  unfoldable pub render_inbox : S → Bytes → S × Bytes
  unfolding inbox_page
  render_inbox s username =
      let (s1, worker) = service.lookup s (inbox username) in
      let meta_list : Bytes = service.get s1 worker (inbox username) meta in
      let (s2, worker2) = service.lookup s1 (sent_box username) in
      (s2, inbox_page username meta_list (service.get s2 worker2 (sent_box username) meta))

  unfoldable pub view_email : S → Bytes → Bytes → Bytes → S × Bytes
  unfolding folder_row is_err mail_missing mail_page
  view_email s username id folder =
      let row : Bytes = folder_row username folder in
      let (s1, worker) = service.lookup s row in
      let body : Bytes = service.get s1 worker row id in
      (s1, if is_err body then mail_missing else mail_page username id folder body)

  -- The rest of `sendEmail`, once the form is read: the store, the page, and what was sent to the
  -- SMTP server.
  unfoldable pub send_fields :
      Clock → Bool → S → Bytes → Bytes → Bytes → Bytes → S × Bytes × List Bytes
  unfolding create_metadata encrypt_metadata is_external_email send_via_smtp try_store sent_page
  send_fields clock connects s sender recipient subject body =
      let id : Bytes =
        encrypt_metadata (create_metadata sender recipient subject clock.timestamp) in
      let (sent, by_smtp) = send_via_smtp connects clock.date sender recipient subject body in
      let (s1, stored) = try_store s (inbox recipient) id body in
      let external : Bool = is_external_email recipient in
      let delivered : Bool = if external then by_smtp else stored in
      let (s2, kept) = try_store (if external then s else s1) (sent_box sender) id body in
      (s2, sent_page sender recipient delivered kept, if external then sent else [])

  unfoldable pub send_email : Clock → Bool → S → Bytes → S × Bytes × List Bytes
  unfolding parse_query_string decode_values field send_fields
  send_email clock connects s post_data =
      let form : Map Bytes = decode_values (parse_query_string post_data) in
      send_fields clock connects s (field (bytes "username") form) (field (bytes "to") form)
        (field (bytes "subject") form) (field (bytes "body") form)

  unfoldable pub render_reply_compose : S → Bytes → Bytes → Bytes → S × Bytes
  unfolding folder_row reply_page
  render_reply_compose s username id folder =
      let row : Bytes = folder_row username folder in
      let (s1, worker) = service.lookup s row in
      (s1, reply_page username id (service.get s1 worker row id))

  unfoldable pub render_forward_compose : S → Bytes → Bytes → Bytes → S × Bytes
  unfolding folder_row forward_page
  render_forward_compose s username id folder =
      let row : Bytes = folder_row username folder in
      let (s1, worker) = service.lookup s row in
      (s1, forward_page username id (service.get s1 worker row id))

  unfoldable pub delete_email : S → Bytes → Bytes → Bytes → S × Bytes
  unfolding folder_row is_err delete_failed remove_from_metadata
  delete_email s username id folder =
      let row : Bytes = folder_row username folder in
      let (s1, worker) = service.lookup s row in
      let (s2, res) = service.write s1 worker (delete row id) in
      if is_err res
      then (s2, delete_failed)
      else (remove_from_metadata service s2 row id, bytes "Email deleted successfully!")
