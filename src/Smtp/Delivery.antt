-- ===== src/Smtp/Delivery.antt =====
-- The end of a mail's text: the mail goes into the boxes of the recipients, and to other servers.
use penn_cloud.Prelude.{
  ℕ, ◌%◌, Bytes, bytes, Bool, false, Option, none, some, List, [], ◌∷◌, ◌++◌, drop, ◌&&◌, ◌||◌,
  if◌then◌else◌, begins, contains, cut_text, trim, getlines, to_string,
}
use penn_cloud.Op.{put}
use penn_cloud.Service.{Service, is_err}
use penn_cloud.Metadata.{create_metadata, encrypt_metadata}
use penn_cloud.Mailbox.{meta, is_blank, append_to_metadata}
use penn_cloud.TextServer.{cut}
use penn_cloud.Smtp.{Session, Answer, is_none, reply, at_localhost}

-- What the clock and `rand` give while a mail is delivered.
pub record Moment : Type 0 where
  pub timestamp : Bytes
  pub date : Bytes
  pub now : Bytes
  pub random : ℕ

-- The loop over the header lines, up to the first one with a subject.
unfoldable pub subject_in : List Bytes → Bytes
subject_in [] = bytes "No Subject"
subject_in (line ∷ lines) =
    let rest = subject_in lines in
    if begins (bytes "Subject:") line then trim (drop 8 line) else rest

with_header : Bytes → Bytes → Bytes → Bytes
with_header name value headers =
    if contains name headers then headers else headers ++ (name ++ (b' ' ∷ (value ++ 10 ∷ [])))

first_recipient : Session → Option Bytes
first_recipient s = elim s.valid_recipients [
  | recipient ∷ _ ↦ some recipient
  | [] ↦ elim s.non_local_recipients [ recipient ∷ _ ↦ some recipient | [] ↦ none ]
]

-- `senderEmail.substr(senderEmail.find("@") + 1)`
domain_of : Bytes → Bytes
domain_of sender = elim (cut b'@' sender) [ none ↦ sender | some (before, domain) ↦ domain ]

-- The headers that are missing, and the identifier of the message.
unfoldable pub fill_headers : Moment → Session → Bytes
unfolding with_header first_recipient domain_of
fill_headers m s =
    let from : Bytes = with_header (bytes "From:") s.sender s.headers_block in
    let to : Bytes = elim (first_recipient s) [
      | none ↦ from
      | some r ↦ with_header (bytes "To:") r from
    ] in
    with_header (bytes "Date:") m.date to
    ++ (bytes "Message-ID: <"
        ++ (m.now
            ++ (b'.'
                ∷ (to_string (m.random % 10000)
                    ++ (b'@' ∷ (domain_of s.sender ++ (b'>' ∷ 10 ∷ [])))))))

-- What is sent to the server of another domain.
unfoldable pub relay_lines : Bytes → Bytes → Bytes → Bytes → List Bytes
relay_lines sender recipient headers body =
    let rewritten : Bytes = elim (cut_text at_localhost sender) [
      | none ↦ sender
      | some (before, after) ↦ before ++ (bytes "@seas.upenn.edu" ++ after)
    ] in
    reply (bytes "HELO seas.upenn.edu")
    ∷ reply (bytes "MAIL FROM:<" ++ (rewritten ++ bytes ">"))
    ∷ reply (bytes "RCPT TO:<" ++ (recipient ++ bytes ">"))
    ∷ reply (bytes "DATA")
    ∷ reply (headers ++ (13 ∷ 10 ∷ 13 ∷ 10 ∷ (body ++ 13 ∷ 10 ∷ b'.' ∷ [])))
    ∷ reply (bytes "QUIT")
    ∷ []

abbrev pub inbox : Bytes → Bytes
inbox user = bytes "inbox_email:" ++ user

abbrev pub sent_box : Bytes → Bytes
sent_box user = bytes "sent_email:" ++ user

module _ {S : Type 0} (service : Service S) where
  -- The text of a mail under its id, and the id in the list of the box.
  unfoldable pub store_mail : S → Bytes → Bytes → Bytes → S
  unfolding append_to_metadata
  store_mail s row id body =
      let (s1, worker) = service.lookup s row in
      append_to_metadata service (service.write s1 worker (put row id body)).0 row id

  -- One local recipient: the inbox, and the box of what the sender sent.
  unfoldable pub deliver : S → Bytes → Bytes → Bytes → Bytes → Bytes → S
  unfolding store_mail
  deliver s sender subject timestamp body recipient =
      let id : Bytes = encrypt_metadata (create_metadata sender recipient subject timestamp) in
      let s1 : S = store_mail s (inbox recipient) id body in
      if contains at_localhost sender then store_mail s1 (sent_box sender) id body else s1

  unfoldable pub deliver_all : S → Bytes → Bytes → Bytes → Bytes → List Bytes → S
  unfolding deliver
  deliver_all s sender subject timestamp body [] = s
  deliver_all s sender subject timestamp body (recipient ∷ recipients) =
      deliver_all (deliver s sender subject timestamp body recipient) sender subject timestamp body
        recipients

  -- `sendDeliveryFailure`, with one client for all calls.
  unfoldable pub send_failure : S → Bytes → Bytes → Bytes → Bytes → S
  send_failure s sender timestamp failed reason =
      let subject : Bytes = bytes "Delivery Failed to " ++ failed in
      let body : Bytes =
        bytes "Your email could not be delivered to "
        ++ (failed ++ (bytes "." ++ (10 ∷ (bytes "Reason: " ++ reason)))) in
      let id : Bytes =
        encrypt_metadata
          (create_metadata (bytes "mailer-daemon@localhost") sender subject timestamp) in
      let (s1, worker) = service.lookup s (inbox sender) in
      let s2 : S = (service.write s1 worker (put (inbox sender) id body)).0 in
      let current : Bytes = service.get s2 worker (inbox sender) meta in
      let new_meta : Bytes =
        if is_err current || is_blank current then id else current ++ b',' ∷ id in
      (service.write s2 worker (put (inbox sender) meta new_meta)).0

  -- `relay recipient` is the reason why the server of the recipient's domain cannot be reached.
  unfoldable pub relay_all :
      (Bytes → Option Bytes) → S → Moment → Bytes → Bytes → Bytes → List Bytes → S × List Bytes
  unfolding send_failure relay_lines
  relay_all relay s m sender headers body [] = (s, [])
  relay_all relay s m sender headers body (recipient ∷ recipients) = elim (cut b'@' recipient) [
    | none ↦ relay_all relay s m sender headers body recipients
    | some _ ↦ elim (relay recipient) [
      | some reason ↦
          relay_all relay (send_failure s sender m.timestamp recipient reason) m sender headers body
            recipients
      | none ↦
          let (s1, sent) = relay_all relay s m sender headers body recipients in
          (s1, relay_lines sender recipient headers body ++ sent)
    ]
  ]

  -- The single dot. The recipients at other domains are kept.
  unfoldable pub end_data :
      (Bytes → Option Bytes) → Bool → Moment → S → Session → S × Answer × List Bytes
  unfolding subject_in fill_headers deliver_all relay_all
  end_data relay extra m s session =
      if is_none session.valid_recipients && is_none session.non_local_recipients
      then (
        s,
        (
          record session { is_data_mode = false },
          reply (bytes "550 Requested action not taken: no valid recipients"),
        ),
        [],
      )
      else (let subject : Bytes = subject_in (getlines 10 session.headers_block) in
          let headers : Bytes = fill_headers m session in
          let s1 : S =
            deliver_all s session.sender subject m.timestamp session.body_block
              session.valid_recipients in
          let (s2, sent) =
            relay_all relay s1 m session.sender headers session.body_block
              (if extra then session.non_local_recipients else []) in
          (
            s2,
            (
              record session {
                is_data_mode = false;
                valid_recipients = [];
                headers_block = [];
                body_block = [];
              },
              reply (bytes "250 Data input complete. Exiting DATA mode."),
            ),
            sent,
          ))
