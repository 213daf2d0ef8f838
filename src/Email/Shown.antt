-- ===== src/Email/Shown.antt =====
-- What a user sees of a mail that was sent, and of one that was deleted.
use penn_cloud.Prelude.{
  Bytes, bytes, bytes_eq, ◌≡◌, refl, ap, ◌∙◌, true, false, none, some, List, [], All, arith,
  bytes_eq_refl, bytes_eq_iff, contains, Bool,
}
use penn_cloud.Op.{put, delete}
use penn_cloud.KeyValue
use penn_cloud.KeyValue.{KeyValue}
use penn_cloud.Service.{Service, Serves, Answers, is_err}
use penn_cloud.Metadata.{create_metadata, encrypt_metadata}
use penn_cloud.Mailbox.{meta, text}
use penn_cloud.Mailbox.Ids.{IsId, append-IsMailbox, remove-IsMailbox, without}
use penn_cloud.Smtp.{at_localhost}
use penn_cloud.Smtp.Delivery.{inbox, sent_box}
use penn_cloud.Smtp.Inbox.{
  mail_stored, IsBox, put-IsMailbox, other_row-IsBox, id-meta, sent_box-other,
}
use penn_cloud.Email.Pages.{mail_page, mail_missing}
use penn_cloud.Email.Forms.{sent_page}
use penn_cloud.Email.Mails.{
  Clock, try_store, send_fields, view_email, delete_email, folder_row, is_external_email,
}

mail_stored-id :
    (row id body : Bytes) (ids : List Bytes) (f : KeyValue)
    → bytes_eq id meta ≡ false
    → mail_stored row id body ids f row id ≡ some body
unfolding KeyValue.write
mail_stored-id row id body ids f h =
    ground (arith, bytes_eq_refl row, bytes_eq_refl id, bytes_eq_iff meta id, bytes_eq_iff id meta)

-- The cells of a mail and of the list, after the mail was deleted.
deleted-meta :
    (row id : Bytes) (f : KeyValue)
    → bytes_eq id meta ≡ false
    → KeyValue.write (delete row id) f row meta ≡ f row meta
unfolding KeyValue.write
deleted-meta row id f h = ground (arith, bytes_eq_refl row)

deleted-id :
    (row id list : Bytes) (f : KeyValue)
    → bytes_eq id meta ≡ false
    → KeyValue.write (put row meta list) (KeyValue.write (delete row id) f) row id ≡ none
unfolding KeyValue.write
deleted-id row id list f h =
    ground (arith, bytes_eq_refl row, bytes_eq_refl id, bytes_eq_iff meta id, bytes_eq_iff id meta)

-- The box of sent mails is another row than an inbox.
sent_mail-inbox :
    (sender recipient id body : Bytes) (ids : List Bytes) (f : KeyValue)
    → mail_stored (sent_box sender) id body ids f (inbox recipient) id ≡ f (inbox recipient) id
unfolding KeyValue.write bytes_eq
sent_mail-inbox sender recipient id body ids f = refl

folder_row-inbox : (username : Bytes) → folder_row username (bytes "inbox") ≡ inbox username
unfolding folder_row bytes_eq
folder_row-inbox username = refl

-- The map after a mail to a local user.
abbrev pub mailed : Bytes → Bytes → Bytes → Bytes → List Bytes → List Bytes → KeyValue → KeyValue
mailed sender recipient id body ids sent_ids f =
    mail_stored (sent_box sender) id body sent_ids (mail_stored (inbox recipient) id body ids f)

-- The mail in the inbox of its recipient.
pub mailed-inbox :
    (sender recipient id body : Bytes) (ids sent_ids : List Bytes) (f : KeyValue)
    → bytes_eq id meta ≡ false
    → mailed sender recipient id body ids sent_ids f (folder_row recipient (bytes "inbox")) id
      ≡ some body
mailed-inbox sender recipient id body ids sent_ids f h =
    ap (λ row. mailed sender recipient id body ids sent_ids f row id) (folder_row-inbox recipient)
    ∙ sent_mail-inbox sender recipient id body sent_ids
        (mail_stored (inbox recipient) id body ids f)
    ∙ mail_stored-id (inbox recipient) id body ids f h

module _ {S : Type 0} (service : Service S) (Shows : S → KeyValue → Type 0)
    (At : S → Bytes → Bytes → Type 0) (serves : Serves service Shows At)
    (answers : Answers service Shows At) where
  try_store-Shows :
      (s : S) (f : KeyValue) (row id body : Bytes) (ids : List Bytes)
      → Shows s f
      → bytes_eq id meta ≡ false
      → IsBox f row ids
      → ((try_store service s row id body).1 ≡ true)
        × Shows (try_store service s row id body).0 (mail_stored row id body ids f)
  unfolding try_store
  try_store-Shows s f row id body ids shows e box =
      let looked = serves.lookup_shows s f row shows in
      let at = serves.lookup_at s f row shows in
      let written = serves.write_shows _ f _ (put row id body) looked at in
      let kept = put-IsMailbox f row id body ids e box.listed in
      ground (
        arith,
        answers.put_ok _ f _ row id body looked at,
        append-IsMailbox service Shows At serves _ (KeyValue.write (put row id body) f) row id ids
            written box.formed box.no_err kept,
      )

  pub view_email-stored :
      (s : S) (f : KeyValue) (username id folder body : Bytes)
      → Shows s f
      → f (folder_row username folder) id ≡ some body
      → is_err body ≡ false
      → (view_email service s username id folder).1 ≡ mail_page username id folder body
  unfolding view_email
  view_email-stored s f username id folder body shows e ok =
      let row = folder_row username folder in
      ground (
        arith,
        ok,
        serves.get_value _ f _ row id body (serves.lookup_shows s f row shows)
            (serves.lookup_at s f row shows) e,
      )

  view_email-missing :
      (s : S) (f : KeyValue) (username id folder : Bytes)
      → Shows s f
      → f (folder_row username folder) id ≡ none
      → (view_email service s username id folder).1 ≡ mail_missing
  unfolding view_email
  view_email-missing s f username id folder shows e =
      let row = folder_row username folder in
      ground (
        arith,
        serves.get_missing _ f _ row id (serves.lookup_shows s f row shows)
            (serves.lookup_at s f row shows) e,
      )

  -- The two stores of a mail, one after the other.
  both_stored :
      (s : S) (f : KeyValue) (sender recipient id body : Bytes) (ids sent_ids : List Bytes)
      → Shows s f
      → bytes_eq id meta ≡ false
      → IsBox f (inbox recipient) ids
      → IsBox f (sent_box sender) sent_ids
      → let received = try_store service s (inbox recipient) id body in
        let kept = try_store service received.0 (sent_box sender) id body in
        (received.1 ≡ true)
        × (kept.1 ≡ true)
        × Shows kept.0 (mailed sender recipient id body ids sent_ids f)
  both_stored s f sender recipient id body ids sent_ids shows e box sent =
      let (ok, after) = try_store-Shows s f (inbox recipient) id body ids shows e box in
      let (ok2, after2) =
        try_store-Shows _ (mail_stored (inbox recipient) id body ids f) (sent_box sender) id body
          sent_ids after e
          (other_row-IsBox f (mail_stored (inbox recipient) id body ids f) (sent_box sender)
            sent_ids (sent_box-other sender recipient id body ids f) sent) in
      (ok, ok2, after2)

  pub send_fields-Shows :
      (clock : Clock) (connects : Bool) (s : S) (f : KeyValue)
      (sender recipient subject body : Bytes) (ids sent_ids : List Bytes)
      → Shows s f
      → contains at_localhost recipient ≡ true
      → IsBox f (inbox recipient) ids
      → IsBox f (sent_box sender) sent_ids
      → let id = encrypt_metadata (create_metadata sender recipient subject clock.timestamp) in
        let sent = send_fields service clock connects s sender recipient subject body in
        Shows sent.0 (mailed sender recipient id body ids sent_ids f)
        × (sent.1 ≡ sent_page sender recipient true true)
        × (sent.2 ≡ [])
  unfolding send_fields is_external_email
  send_fields-Shows clock connects s f sender recipient subject body ids sent_ids shows local box
        sent =
      let id = encrypt_metadata (create_metadata sender recipient subject clock.timestamp) in
      let (ok, ok2, after) =
        both_stored s f sender recipient id body ids sent_ids shows
          (id-meta sender recipient subject clock.timestamp) box sent in
      rw (local, ok, ok2) (after, refl, refl)

  delete_email-Shows :
      (s : S) (f : KeyValue) (username id folder : Bytes) (ids : List Bytes)
      → Shows s f
      → bytes_eq id meta ≡ false
      → All IsId ids
      → is_err (text ids) ≡ false
      → f (folder_row username folder) meta ≡ some (text ids)
      → let row = folder_row username folder in
        let deleted = delete_email service s username id folder in
        (deleted.1 ≡ bytes "Email deleted successfully!")
        × Shows deleted.0 (
            KeyValue.write
              (put row meta (text (without id ids)))
              (KeyValue.write (delete row id) f))
  unfolding delete_email
  delete_email-Shows s f username id folder ids shows e formed ok stored =
      let row = folder_row username folder in
      let looked = serves.lookup_shows s f row shows in
      let at = serves.lookup_at s f row shows in
      ground (
        arith,
        answers.delete_ok _ f _ row id looked at,
        remove-IsMailbox service Shows At serves _ (KeyValue.write (delete row id) f) row id ids
            (serves.write_shows _ f _ (delete row id) looked at) formed ok
            (deleted-meta row id f e ∙ stored),
      )

  -- On a store that serves a map and answers writes, deleting a mail from a folder whose ids are
  -- well-formed takes its text from the map and its id from the list, and the others stay in order;
  -- a user who asks for the mail afterwards is told that it was not found.
  pub delete_email-view :
      (s : S) (f : KeyValue) (username id folder : Bytes) (ids : List Bytes)
      → Shows s f
      → bytes_eq id meta ≡ false
      → All IsId ids
      → is_err (text ids) ≡ false
      → f (folder_row username folder) meta ≡ some (text ids)
      → let row = folder_row username folder in
        let deleted = delete_email service s username id folder in
        (deleted.1 ≡ bytes "Email deleted successfully!")
        × Shows deleted.0 (
            KeyValue.write
              (put row meta (text (without id ids)))
              (KeyValue.write (delete row id) f))
        × ((view_email service deleted.0 username id folder).1 ≡ mail_missing)
  delete_email-view s f username id folder ids shows e formed ok stored =
      let (page, after) = delete_email-Shows s f username id folder ids shows e formed ok stored in
      (
        page,
        after,
        view_email-missing _ _ username id folder after
            (deleted-id (folder_row username folder) id (text (without id ids)) f e),
      )
