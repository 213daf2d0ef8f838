-- ===== src/Tests/Web.antt =====
-- The front end's server, mails and administration, on a single node as the store.
use penn_cloud.Prelude.{
  ℕ, Bytes, bytes, bytes_eq, ◌≡◌, refl, Bool, true, false, none, some, List, [], ◌∷◌, All, ◌&&◌,
  leb, inr, contains, cut_text,
}
use penn_cloud.Map.{lookup, insert}
use penn_cloud.Tablet
use penn_cloud.Tablet.{Tablet, cell}
use penn_cloud.Op.{put, delete}
use penn_cloud.KeyValue
use penn_cloud.KeyValue.{KeyValue}
use penn_cloud.Service.{Service, Serves, Answers, is_err}
use penn_cloud.SingleNode.Serving.{Shows}
use penn_cloud.Tests.SingleHost.{service, At, service-Serves, service-Answers}
use penn_cloud.Metadata.{create_metadata, encrypt_metadata}
use penn_cloud.Mailbox.{meta, text}
use penn_cloud.Mailbox.Ids.{IsId, without}
use penn_cloud.Smtp.{at_localhost}
use penn_cloud.Smtp.Delivery.{inbox, sent_box}
use penn_cloud.Smtp.Inbox.{IsBox}
use penn_cloud.Email.Decoding.{url_decode}
use penn_cloud.Email.Decoding.Escaped.{IsPlain, url_encode, url_decode-url_encode}
use penn_cloud.Email.Pages.{mail_page, mail_missing}
use penn_cloud.Email.Forms.{sent_page}
use penn_cloud.Email.Mails.{Clock, view_email, delete_email, folder_row}
use penn_cloud.Email.Requests.{handle_request}
use penn_cloud.Email.Shown.{mailed, delete_email-view}
use penn_cloud.Email.Posted.{posted, link_query, handle_request-Shows}
use penn_cloud.Email.Decoding.Plain.{below-AllBytes}

abbrev host : Bytes
host = bytes "127.0.0.1:50051"

host-not_err : is_err host ≡ false
unfolding is_err bytes_eq
host-not_err = refl

node : Service Tablet
node = service host

node-Serves : Serves (service host) Shows At
node-Serves = service-Serves host host-not_err

node-Answers : Answers (service host) Shows At
node-Answers = service-Answers host

abbrev nothing : KeyValue
nothing r c = none

empty-Shows : Shows [] nothing
unfolding cell lookup
empty-Shows r c = refl

no_ids-not_err : is_err (text []) ≡ false
unfolding is_err text bytes_eq
no_ids-not_err = refl

empty-IsBox : (row : Bytes) → IsBox nothing row []
empty-IsBox row = record { listed = inr (refl, refl); formed = tt; no_err = no_ids-not_err }

-- Small letters stand for themselves.
abbrev is_letter : ℕ → Bool
is_letter x = leb b'a' x && leb x b'z'

is_letter-IsPlain : IsPlain is_letter
is_letter-IsPlain = record { percent = refl; plus = refl }

abbrev ann : Bytes
ann = bytes "ann@localhost"

abbrev bob : Bytes
bob = bytes "bob@localhost"

abbrev noon : Clock
noon = record {
  timestamp = bytes "2025-05-01 12:00:00";
  date = bytes "Thu, 01 May 2025 12:00:00 +0000";
}

abbrev greeting : Bytes
greeting = bytes "50% + tea & cake"

url_decode-url_encode_example : url_decode (url_encode is_letter greeting) ≡ greeting
url_decode-url_encode_example =
    url_decode-url_encode is_letter greeting is_letter-IsPlain (below-AllBytes greeting refl)

bob-local : contains at_localhost bob ≡ true
unfolding contains cut_text bytes_eq
bob-local = refl

greeting-not_err : is_err greeting ≡ false
unfolding is_err bytes_eq
greeting-not_err = refl

abbrev mail_id : Bytes
mail_id = encrypt_metadata (create_metadata ann bob (bytes "Tea") noon.timestamp)

handle_request-Shows_example :
    let sent =
      handle_request
        (service host)
        noon
        false
        []
        (bytes "/send")
        (bytes "POST")
        []
        (posted is_letter ann bob (bytes "Tea") greeting) in
    let shown =
      handle_request
        (service host)
        noon
        false
        sent.0
        (bytes "/email")
        (bytes "GET")
        (link_query is_letter bob mail_id)
        [] in
    Shows sent.0 (mailed ann bob mail_id greeting [] [] nothing)
    × (sent.1 ≡ sent_page ann bob true true)
    × (sent.2 ≡ [])
    × (shown.1 ≡ mail_page bob mail_id (bytes "inbox") greeting)
handle_request-Shows_example =
    handle_request-Shows (service host) Shows At node-Serves node-Answers is_letter noon false []
      nothing ann bob (bytes "Tea") greeting [] [] is_letter-IsPlain refl
      (
        below-AllBytes ann refl,
        (
          below-AllBytes bob refl,
          (
            below-AllBytes (bytes "Tea") refl,
            (below-AllBytes greeting refl, (below-AllBytes noon.timestamp refl, tt)),
          ),
        ),
      )
      bob-local greeting-not_err empty-Shows (empty-IsBox (inbox bob)) (empty-IsBox (sent_box ann))

-- A mailbox with two mails.
abbrev two_ids : List Bytes
two_ids = bytes ";a" ∷ bytes ";b" ∷ []

abbrev mailbox : Tablet
mailbox = Tablet.put (inbox ann) meta (text two_ids) []

abbrev mailbox_map : KeyValue
mailbox_map r c = cell r c mailbox

two_ids-not_err : is_err (text two_ids) ≡ false
unfolding is_err bytes_eq text
two_ids-not_err = refl

two_ids-IsId : All IsId two_ids
unfolding bytes_eq
two_ids-IsId = ((refl, (refl, (refl, tt))), ((refl, (refl, (refl, tt))), tt))

mailbox-meta : mailbox_map (folder_row ann (bytes "inbox")) meta ≡ some (text two_ids)
unfolding cell lookup insert bytes_eq Tablet.put Tablet.row_of folder_row
mailbox-meta = refl

id-not_meta : bytes_eq (bytes ";a") meta ≡ false
unfolding bytes_eq
id-not_meta = refl

delete_email-view_example :
    let row = folder_row ann (bytes "inbox") in
    let deleted = delete_email (service host) mailbox ann (bytes ";a") (bytes "inbox") in
    (deleted.1 ≡ bytes "Email deleted successfully!")
    × Shows deleted.0 (
        KeyValue.write
          (put row meta (text (without (bytes ";a") two_ids)))
          (KeyValue.write (delete row (bytes ";a")) mailbox_map))
    × ((view_email (service host) deleted.0 ann (bytes ";a") (bytes "inbox")).1 ≡ mail_missing)
delete_email-view_example =
    delete_email-view (service host) Shows At node-Serves node-Answers mailbox mailbox_map ann
      (bytes ";a") (bytes "inbox") two_ids (λ r c. refl) id-not_meta two_ids-IsId two_ids-not_err
      mailbox-meta
