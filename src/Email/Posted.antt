-- ===== src/Email/Posted.antt =====
-- A mail from the form that is posted to the page that its recipient asks for.
use penn_cloud.Prelude.{
  ℕ, ◌<◌, Bytes, bytes, bytes_eq, ◌≡◌, refl, sym, ◌∙◌, Bool, true, false, List, [], ◌∷◌, All, arith,
  ◌==◌, ◌++◌, All-append, contains, cut_text, begins, Bool-cases, inl, inr,
}
use penn_cloud.Map.{insert, lookup}
use penn_cloud.KeyValue.{KeyValue}
use penn_cloud.Service.{Service, Serves, Answers, is_err}
use penn_cloud.Metadata.{create_metadata, encrypt_metadata}
use penn_cloud.Metadata.Query.{query_text, parse_query_string-query_text}
use penn_cloud.Smtp.{at_localhost}
use penn_cloud.Smtp.Delivery.{inbox, sent_box}
use penn_cloud.Smtp.Inbox.{IsBox, id-meta}
use penn_cloud.Storage.Requests.{field}
use penn_cloud.Storage.Search.{contains-step, contains-differs}
use penn_cloud.Email.Decoding.{decode_values}
use penn_cloud.Email.Decoding.Escaped.{url_encode, IsPlain, url_decode-url_encode}
use penn_cloud.Email.Mails.{Clock, send_fields, send_email, view_email}
use penn_cloud.Email.Pages.{mail_page}
use penn_cloud.Email.Forms.{sent_page}
use penn_cloud.Email.Requests.{handle_request, mailbox_user, email_id, folder_of, unsent}
use penn_cloud.Email.Shown.{mailed, send_fields-Shows, view_email-stored, mailed-inbox}
use penn_cloud.Email.Decoding.Plain.{
  AllBytes, url_encode-Lacks, below, below-AllBytes, reverse_aux-AllBytes,
}

-- The fields behind the first one.
abbrev pub behind_to : (ℕ → Bool) → Bytes → Bytes → Bytes → List (Bytes × Bytes)
behind_to plain sender subject body =
    (bytes "subject", url_encode plain subject)
    ∷ (bytes "body", url_encode plain body)
    ∷ (bytes "username", url_encode plain sender)
    ∷ []

-- The form of the page that composes a mail, as a browser posts it.
abbrev pub posted : (ℕ → Bool) → Bytes → Bytes → Bytes → Bytes → Bytes
posted plain sender recipient subject body =
    query_text (bytes "to", url_encode plain recipient) (behind_to plain sender subject body)

header-AllBytes :
    (name value rest : Bytes)
    → below name ≡ true
    → AllBytes value
    → AllBytes rest
    → AllBytes ((name ++ b':' ∷ value) ++ b';' ∷ rest)
header-AllBytes name value rest e h more =
    let P : ℕ → Type 0 = λ x. x < 256 in
    All-append P (name ++ b':' ∷ value) (b';' ∷ rest)
      (All-append P name (b':' ∷ value) (below-AllBytes name e) (omega arith, h))
      (omega arith, more)

id-AllBytes :
    (sender recipient subject timestamp : Bytes)
    → AllBytes sender
    → AllBytes recipient
    → AllBytes subject
    → AllBytes timestamp
    → AllBytes (encrypt_metadata (create_metadata sender recipient subject timestamp))
unfolding create_metadata encrypt_metadata
id-AllBytes sender recipient subject timestamp a b c d =
    reverse_aux-AllBytes (create_metadata sender recipient subject timestamp) []
      (header-AllBytes (bytes "sender") sender _ refl a (
        header-AllBytes (bytes "recipient") recipient _ refl b (
          header-AllBytes (bytes "subject") subject _ refl c
            (header-AllBytes (bytes "timestamp") timestamp [] refl d tt))))
      tt

module _ {S : Type 0} (service : Service S) where
  send_email-posted :
      (plain : ℕ → Bool) (clock : Clock) (connects : Bool) (s : S)
      (sender recipient subject body : Bytes)
      → IsPlain plain
      → plain b'&' ≡ false
      → All AllBytes (sender ∷ recipient ∷ subject ∷ body ∷ [])
      → send_email service clock connects s (posted plain sender recipient subject body)
        ≡ send_fields service clock connects s sender recipient subject body
  unfolding send_email decode_values field lookup insert bytes_eq
  send_email-posted plain clock connects s sender recipient subject body ok amp h =
      rw
        (
          parse_query_string-query_text (bytes "to", url_encode plain recipient)
              (behind_to plain sender subject body)
              (
                ((refl, (refl, tt)), url_encode-Lacks plain recipient amp h.1.0),
                (
                  (
                    (refl, (refl, (refl, (refl, (refl, (refl, (refl, tt))))))),
                    url_encode-Lacks plain subject amp h.1.1.0,
                  ),
                  (
                    ((refl, (refl, (refl, (refl, tt)))), url_encode-Lacks plain body amp h.1.1.1.0),
                    (
                      (
                        (refl, (refl, (refl, (refl, (refl, (refl, (refl, (refl, tt)))))))),
                        url_encode-Lacks plain sender amp h.0,
                      ),
                      tt,
                    ),
                  ),
                ),
              ),
          url_decode-url_encode plain sender ok h.0,
          url_decode-url_encode plain recipient ok h.1.0,
          url_decode-url_encode plain subject ok h.1.1.0,
          url_decode-url_encode plain body ok h.1.1.1.0,
          send_email,
        )
        refl

-- The query of a link to a mail in the inbox.
abbrev pub behind_id : (ℕ → Bool) → Bytes → List (Bytes × Bytes)
behind_id plain username =
    (bytes "folder", bytes "inbox") ∷ (bytes "username", url_encode plain username) ∷ []

abbrev pub link_query : (ℕ → Bool) → Bytes → Bytes → Bytes
link_query plain username id =
    query_text (bytes "id", url_encode plain id) (behind_id plain username)

==-other : (x y : ℕ) → (x == y) ≡ false → (y == x) ≡ false
==-other x y e = ground arith

begins-at : (x : ℕ) (s : Bytes) → (x == b'@') ≡ true → begins (bytes "@") (x ∷ s) ≡ true
unfolding begins bytes_eq
begins-at x s e = ground (arith, e)

-- An address at this host has an at sign.
contains-at : (s : Bytes) → contains at_localhost s ≡ true → contains (bytes "@") s ≡ true
unfolding contains cut_text begins bytes_eq
contains-at [] h = h
contains-at (x ∷ s) h = elim (Bool-cases (x == b'@')) [
  | inl e ↦ contains-step (bytes "@") s x ∙ rw (begins-at x s e) refl
  | inr e ↦
      let differs : (b'@' == x) ≡ false = ==-other x b'@' e in
      contains-differs b'@' x [] s differs
      ∙ contains-at s (sym (contains-differs b'@' x (bytes "localhost") s differs) ∙ h)
]

module _ {S : Type 0} (service : Service S) where
  handle_request-send :
      (clock : Clock) (connects : Bool) (s : S) (form : Bytes)
      → handle_request service clock connects s (bytes "/send") (bytes "POST") [] form
        ≡ send_email service clock connects s form
  unfolding handle_request bytes_eq
  handle_request-send clock connects s form = refl

  handle_request-email :
      (plain : ℕ → Bool) (clock : Clock) (connects : Bool) (s : S) (username id : Bytes)
      → IsPlain plain
      → plain b'&' ≡ false
      → All AllBytes (username ∷ id ∷ [])
      → contains at_localhost username ≡ true
      → handle_request service clock connects s
          (bytes "/email")
          (bytes "GET")
          (link_query plain username id)
          []
        ≡ unsent (view_email service s username id (bytes "inbox"))
  unfolding handle_request bytes_eq mailbox_user email_id folder_of lookup insert
  handle_request-email plain clock connects s username id ok amp h local =
      rw
        (
          parse_query_string-query_text (bytes "id", url_encode plain id) (behind_id plain username)
              (
                ((refl, (refl, tt)), url_encode-Lacks plain id amp h.1.0),
                (
                  (
                    (refl, (refl, (refl, (refl, (refl, (refl, tt)))))),
                    (refl, (refl, (refl, (refl, (refl, tt))))),
                  ),
                  (
                    (
                      (refl, (refl, (refl, (refl, (refl, (refl, (refl, (refl, tt)))))))),
                      url_encode-Lacks plain username amp h.0,
                    ),
                    tt,
                  ),
                ),
              ),
          url_decode-url_encode plain username ok h.0,
          url_decode-url_encode plain id ok h.1.0,
          contains-at username local,
          handle_request,
        )
        refl

module _ {S : Type 0} (service : Service S) (Shows : S → KeyValue → Type 0)
    (At : S → Bytes → Bytes → Type 0) (serves : Serves service Shows At)
    (answers : Answers service Shows At) where
  -- On a store that serves a map and answers writes, a form that a browser encodes, in whatever way
  -- it writes the bytes other than the percent sign, the plus sign and the ampersand, sends a mail
  -- to a local user: the text and the id are put into the recipient's inbox and into the sender's
  -- box of sent mails, nothing is sent by SMTP and the page has no warning; the recipient who asks
  -- for the mail then is shown it. The boxes are well-formed and the text of the mail is not like
  -- an error text.
  pub handle_request-Shows :
      (plain : ℕ → Bool) (clock : Clock) (connects : Bool) (s : S) (f : KeyValue)
      (sender recipient subject body : Bytes) (ids sent_ids : List Bytes)
      → IsPlain plain
      → plain b'&' ≡ false
      → All AllBytes (sender ∷ recipient ∷ subject ∷ body ∷ clock.timestamp ∷ [])
      → contains at_localhost recipient ≡ true
      → is_err body ≡ false
      → Shows s f
      → IsBox f (inbox recipient) ids
      → IsBox f (sent_box sender) sent_ids
      → let id = encrypt_metadata (create_metadata sender recipient subject clock.timestamp) in
        let sent =
          handle_request service clock connects s
            (bytes "/send")
            (bytes "POST")
            []
            (posted plain sender recipient subject body) in
        let shown =
          handle_request service clock connects sent.0
            (bytes "/email")
            (bytes "GET")
            (link_query plain recipient id)
            [] in
        Shows sent.0 (mailed sender recipient id body ids sent_ids f)
        × (sent.1 ≡ sent_page sender recipient true true)
        × (sent.2 ≡ [])
        × (shown.1 ≡ mail_page recipient id (bytes "inbox") body)
  handle_request-Shows plain clock connects s f sender recipient subject body ids sent_ids ok amp h
        local readable shows box sent =
      let id = encrypt_metadata (create_metadata sender recipient subject clock.timestamp) in
      let (after, page, nothing) =
        send_fields-Shows service Shows At serves answers clock connects s f sender recipient
          subject body ids sent_ids shows local box sent in
      let texts : All AllBytes (sender ∷ recipient ∷ subject ∷ body ∷ []) =
        (h.0, (h.1.0, (h.1.1.0, (h.1.1.1.0, tt)))) in
      rw
        (
          handle_request-send service clock connects s (posted plain sender recipient subject body),
          send_email-posted service plain clock connects s sender recipient subject body ok amp
              texts,
        )
        (
          after,
          page,
          nothing,
          rw
              (handle_request-email service plain clock connects
                (send_fields service clock connects s sender recipient subject body).0 recipient id
                ok amp
                (
                  h.1.0,
                  (
                    id-AllBytes sender recipient subject clock.timestamp h.0 h.1.0 h.1.1.0
                        h.1.1.1.1.0,
                    tt,
                  ),
                )
                local)
              (view_email-stored service Shows At serves answers _ _ recipient id (bytes "inbox")
                body after
                (mailed-inbox sender recipient id body ids sent_ids f
                  (id-meta sender recipient subject clock.timestamp))
                readable),
        )
