-- ===== src/Smtp.antt =====
-- The SMTP server, frontend/email/smtp_server.cc: the session of one client as a state machine over
-- its lines. A line is what stands between two line ends, without white space at its ends.
pub mod Delivery
pub mod Connection
pub mod Invariant
pub mod Pieces
pub mod Inbox
use penn_cloud.Prelude.{
  ℕ, Bytes, bytes, bytes_eq, Bool, true, false, Option, none, some, List, [], ◌∷◌, ◌++◌, drop,
  length, not, ◌&&◌, ◌||◌, ◌==◌, if◌then◌else◌, begins, cut_text, contains, trim, remove_byte,
  to_upper, ltb,
}
use penn_cloud.Mailbox.{is_blank}
use penn_cloud.TextServer.{crlf, cut}

-- The variables of `handle_client` that outlive a line.
pub record Session : Type 0 where
  pub sender : Bytes
  pub valid_recipients : List Bytes
  pub non_local_recipients : List Bytes
  pub is_data_mode : Bool
  pub in_header_section : Bool
  pub headers_block : Bytes
  pub body_block : Bytes

unfoldable pub fresh : Session
fresh = record {
  sender = [];
  valid_recipients = [];
  non_local_recipients = [];
  is_data_mode = false;
  in_header_section = true;
  headers_block = [];
  body_block = [];
}

abbrev pub is_none {ℓ} : {A : Type ℓ} → List A → Bool
is_none [] = true
is_none (x ∷ xs) = false

abbrev pub at_localhost : Bytes
at_localhost = bytes "@localhost"

last_is : ℕ → Bytes → Bool
last_is d [] = false
last_is d (x ∷ []) = x == d
last_is d (x ∷ y ∷ s) = last_is d (y ∷ s)

-- Neither empty nor without `<` in front or `>` at the end.
unfoldable pub is_bracketed : Bytes → Bool
unfolding last_is
is_bracketed [] = false
is_bracketed (x ∷ s) = x == b'<' && last_is b'>' (x ∷ s)

unfoldable pub unbracket : Bytes → Bytes
unbracket s = remove_byte b'>' (remove_byte b'<' s)

-- The first `@localhost` is there and stands at the end.
unfoldable pub is_local : Bytes → Bool
is_local recipient = elim (cut_text at_localhost recipient) [
  | none ↦ false
  | some (before, after) ↦ is_blank after
]

-- The new session and the reply.
abbrev pub Answer : Type 0
Answer = Session × Bytes

unfoldable pub reply : Bytes → Bytes
unfolding crlf
reply text = text ++ crlf

syntax_error : Bytes
unfolding reply
syntax_error = reply (bytes "500 Syntax error, command format unrecognized")

ok : Bytes
unfolding reply
ok = reply (bytes "250 OK")

-- The sender is set before its form is tested.
unfoldable pub mail : Session → Bytes → Answer
unfolding reply syntax_error ok is_bracketed unbracket
mail s message =
    if begins (bytes "FROM:") message
    then (let sender : Bytes = trim (drop 5 message) in
        if is_bracketed sender
        then (
          record s { sender = unbracket sender; valid_recipients = []; non_local_recipients = [] },
          ok,
        )
        else (
          record s { sender = sender },
          reply (
              bytes
                "500 Syntax error, command format unrecognized. Use format MAIL FROM:<youremail>"),
        ))
    else (s, syntax_error)

-- A recipient without its brackets; `extra` is the option that takes other domains.
unfoldable pub add_recipient : Bool → Session → Bytes → Answer
unfolding is_local reply ok
add_recipient extra s recipient =
    if is_local recipient
    then (record s { valid_recipients = s.valid_recipients ++ recipient ∷ [] }, ok)
    else if extra
    then (record s { non_local_recipients = s.non_local_recipients ++ recipient ∷ [] }, ok)
    else (s, reply (bytes "550 Requested action not taken: unavailable"))

unfoldable pub rcpt : Bool → Session → Bytes → Answer
unfolding add_recipient reply syntax_error is_bracketed unbracket
rcpt extra s message =
    if is_blank s.sender
    then (s, reply (bytes "503 Bad sequence of commands: MAIL FROM required before RCPT TO"))
    else if begins (bytes "TO:") message
    then (let recipient : Bytes = trim (drop 3 message) in
        if is_bracketed recipient
        then add_recipient extra s (unbracket recipient)
        else (s, syntax_error))
    else (s, syntax_error)

unfoldable pub data_command : Bool → Session → Answer
unfolding reply
data_command extra s =
    if is_blank s.sender
    then (s, reply (bytes "503 Bad sequence of commands: MAIL FROM required first"))
    else if is_none s.valid_recipients && (not extra || is_none s.non_local_recipients)
    then (s, reply (bytes "503 Bad sequence of commands: RCPT TO required first"))
    else (
      record s {
        is_data_mode = true;
        in_header_section = true;
        headers_block = [];
        body_block = [];
      },
      reply (bytes "354 Start mail input; end with <CRLF>.<CRLF>"),
    )

-- The other recipients stay.
unfoldable pub reset : Session → Answer
unfolding ok
reset s = (
  record s {
    sender = [];
    valid_recipients = [];
    headers_block = [];
    body_block = [];
    is_data_mode = false;
  },
  ok,
)

-- The command and its argument: the text before the first space, and the text behind it.
unfoldable pub parts : Bytes → Bytes × Bytes
unfolding cut
parts line = elim (cut b' ' line) [
  | none ↦ (to_upper line, [])
  | some (command, message) ↦ (to_upper command, message)
]

-- A line outside of the mail's text; the flag says whether the connection ends.
unfoldable pub command : Bool → Session → Bytes → Answer × Bool
unfolding parts mail rcpt data_command reset reply ok
command extra s line =
    let (name, message) = parts line in
    if bytes_eq name (bytes "HELO")
    then (
      (s, reply (bytes "250 localhost HELO " ++ (message ++ bytes ". Happy to meet you"))),
      false,
    )
    else if bytes_eq name (bytes "MAIL")
    then (mail s message, false)
    else if bytes_eq name (bytes "RCPT")
    then (rcpt extra s message, false)
    else if bytes_eq name (bytes "DATA")
    then (data_command extra s, false)
    else if bytes_eq name (bytes "NOOP")
    then ((s, ok), false)
    else if bytes_eq name (bytes "RSET")
    then (reset s, false)
    else if bytes_eq name (bytes "QUIT")
    then ((s, reply (bytes "221 localhost SMTP Service Closing transmission!")), true)
    else ((s, reply (bytes "500 Syntax error, Unknown command")), false)

-- A line of the mail's text other than the dot. Lines before the first one without a colon are
-- headers.
unfoldable pub text_line : Session → Bytes → Session
text_line s line =
    let with_body : Session = record s { body_block = s.body_block ++ (line ++ 10 ∷ []) } in
    if s.in_header_section
    then (if is_blank (trim line)
        then record s { in_header_section = false }
        else if not (contains (bytes ":") (trim line))
        then record with_body { in_header_section = false }
        else record s { headers_block = s.headers_block ++ (line ++ 10 ∷ []) })
    else with_body
