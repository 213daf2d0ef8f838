-- ===== src/Smtp/Inbox.antt =====
-- What the store shows after a mail was delivered.
use penn_cloud.Prelude.{
  Bytes, bytes_eq, ◌≡◌, ◌≢◌, refl, sym, ap, ◌∙◌, false, List, [], ◌∷◌, ◌++◌, All, arith, inl, inr,
  if◌then◌else◌, contains, bytes_eq_iff, Bool-cases,
}
use mathlib.Core.List.{reverse, reverse-reverse}
use penn_cloud.Op.{put}
use penn_cloud.KeyValue
use penn_cloud.KeyValue.{KeyValue}
use penn_cloud.Service.{Service, Serves, is_err}
use penn_cloud.Metadata.{create_metadata, encrypt_metadata}
use penn_cloud.Mailbox.{meta, text}
use penn_cloud.Mailbox.Ids.{IsId, IsMailbox, append-IsMailbox}
use penn_cloud.Smtp.{at_localhost}
use penn_cloud.Smtp.Delivery.{store_mail, deliver, inbox, sent_box}

-- A mail in a box: its text in the column of its id, and the id behind those of the list.
abbrev pub mail_stored : Bytes → Bytes → Bytes → List Bytes → KeyValue → KeyValue
mail_stored row id body ids f =
    KeyValue.write (put row meta (text (ids ++ id ∷ []))) (KeyValue.write (put row id body) f)

-- A box whose ids are well-formed and whose list is not like an error text.
pub record IsBox (f : KeyValue) (row : Bytes) (ids : List Bytes) : Type 0 where
  pub listed : IsMailbox f row ids
  pub formed : All IsId ids
  pub no_err : is_err (text ids) ≡ false

pub put-IsMailbox :
    (f : KeyValue) (row id body : Bytes) (ids : List Bytes)
    → bytes_eq id meta ≡ false
    → IsMailbox f row ids
    → IsMailbox (KeyValue.write (put row id body) f) row ids
unfolding KeyValue.write
put-IsMailbox f row id body ids e h = ground arith

pub other_row-IsBox :
    (f g : KeyValue) (row : Bytes) (ids : List Bytes)
    → g row meta ≡ f row meta
    → IsBox f row ids
    → IsBox g row ids
other_row-IsBox f g row ids same h = record {
  listed = ground (arith, h.listed, same);
  formed = h.formed;
  no_err = h.no_err;
}

-- The id of a mail is not the name of the column that lists the ids.
pub id-meta :
    (sender recipient subject timestamp : Bytes)
    → bytes_eq (encrypt_metadata (create_metadata sender recipient subject timestamp)) meta ≡ false
unfolding create_metadata encrypt_metadata
id-meta sender recipient subject timestamp = elim (Bool-cases _) [
  | inl e ↦ absurd (reversed ((bytes_eq_iff _ _).0 e))
  | inr e ↦ e
]
  where
    first_byte : create_metadata sender recipient subject timestamp ≢ reverse meta
    first_byte e = cc

    reversed : encrypt_metadata (create_metadata sender recipient subject timestamp) ≢ meta
    reversed e = first_byte (sym (reverse-reverse _) ∙ ap reverse e)

-- The boxes after one delivery.
abbrev pub delivered : Bytes → Bytes → Bytes → Bytes → List Bytes → List Bytes → KeyValue → KeyValue
delivered sender recipient id body ids sent_ids f =
    let received : KeyValue = mail_stored (inbox recipient) id body ids f in
    if contains at_localhost sender
    then mail_stored (sent_box sender) id body sent_ids received
    else received

pub sent_box-other :
    (sender recipient id body : Bytes) (ids : List Bytes) (f : KeyValue)
    → mail_stored (inbox recipient) id body ids f (sent_box sender) meta ≡ f (sent_box sender) meta
unfolding KeyValue.write bytes_eq
sent_box-other sender recipient id body ids f = refl

module _ {S : Type 0} (service : Service S) (Shows : S → KeyValue → Type 0)
    (At : S → Bytes → Bytes → Type 0) (serves : Serves service Shows At) where
  pub store_mail-Shows :
      (s : S) (f : KeyValue) (row id body : Bytes) (ids : List Bytes)
      → Shows s f
      → bytes_eq id meta ≡ false
      → IsBox f row ids
      → Shows (store_mail service s row id body) (mail_stored row id body ids f)
  unfolding store_mail
  store_mail-Shows s f row id body ids shows e box =
      append-IsMailbox service Shows At serves _ (KeyValue.write (put row id body) f) row id ids
        (serves.write_shows _ f _ (put row id body) (serves.lookup_shows s f row shows)
          (serves.lookup_at s f row shows))
        box.formed box.no_err (put-IsMailbox f row id body ids e box.listed)

  -- On a store that serves a map, with well-formed boxes of the recipient and of the sender, the
  -- delivery of a mail puts its text under its id and the id behind those of the recipient's inbox,
  -- and the same into the sender's box of sent mails if the sender's address holds @localhost;
  -- nothing else changes.
  pub deliver-Shows :
      (s : S) (f : KeyValue) (sender subject timestamp body recipient : Bytes)
      (ids sent_ids : List Bytes)
      → Shows s f
      → IsBox f (inbox recipient) ids
      → IsBox f (sent_box sender) sent_ids
      → let id = encrypt_metadata (create_metadata sender recipient subject timestamp) in
        Shows
          (deliver service s sender subject timestamp body recipient)
          (delivered sender recipient id body ids sent_ids f)
  unfolding deliver
  deliver-Shows s f sender subject timestamp body recipient ids sent_ids shows box sent =
      let id = encrypt_metadata (create_metadata sender recipient subject timestamp) in
      let g = mail_stored (inbox recipient) id body ids f in
      let first =
        store_mail-Shows s f (inbox recipient) id body ids shows
          (id-meta sender recipient subject timestamp) box in
      ground (
        arith,
        first,
        store_mail-Shows _ g (sent_box sender) id body sent_ids first
            (id-meta sender recipient subject timestamp)
            (other_row-IsBox f g (sent_box sender) sent_ids
              (sent_box-other sender recipient id body ids f) sent),
      )
