-- ===== src/Smtp/Connection.antt =====
-- The loops of `handle_client` over what the client sends.
use penn_cloud.Prelude.{
  ℕ, zero, suc, Bytes, bytes, bytes_eq, Bool, true, false, Option, none, some, List, [], ◌∷◌, ◌++◌,
  length, ltb, ◌==◌, if◌then◌else◌, cut_text, trim, not,
}
use penn_cloud.Service.{Service}
use penn_cloud.Mailbox.{is_blank}
use penn_cloud.TextServer.{crlf}
use penn_cloud.Smtp.{Session, fresh, command, text_line, reply}
use penn_cloud.Smtp.Delivery.{Moment, end_data}

abbrev pub buffer_length : ℕ
buffer_length = 1024

-- The store, the session and whether the connection is open, with everything that was sent: to the
-- client, and to other servers.
pub record Connection (S : Type 0) : Type 0 where
  pub store : S
  pub session : Session
  pub is_open : Bool
  pub buffer : Bytes
  pub replies : List Bytes
  pub relayed : List Bytes

unfoldable pub start : {S : Type 0} → S → Connection S
unfolding fresh
start s = record {
  store = s;
  session = fresh;
  is_open = true;
  buffer = [];
  replies = reply (bytes "220 localhost Simple Mail Transfer (SMTP) Server Ready") ∷ [];
  relayed = [];
}

-- `recv` gives a text up to its first zero byte.
unfoldable pub c_string : Bytes → Bytes
c_string [] = []
c_string (x ∷ s) = let rest = c_string s in if x == 0 then [] else x ∷ rest

-- `moment k` is what the clock gives when `k` replies were sent.
module _ {S : Type 0} (service : Service S) (relay : Bytes → Option Bytes) (extra : Bool)
    (moment : ℕ → Moment) where
  -- A line that is not empty after trimming.
  unfoldable pub handle_line : Connection S → Bytes → Connection S
  unfolding end_data text_line command
  handle_line c line =
      if ltb buffer_length (length line)
      then record c { replies = c.replies ++ reply (bytes "-ERR Command given too long") ∷ [] }
      else if c.session.is_data_mode
      then (if bytes_eq line (bytes ".")
          then (let (s, answer, sent) =
                end_data service relay extra (moment (length c.replies)) c.store c.session in
              record c {
                store = s;
                session = answer.0;
                replies = c.replies ++ answer.1 ∷ [];
                relayed = c.relayed ++ sent;
              })
          else record c { session = text_line c.session line })
      else (let (answer, quit) = command extra c.session line in
          record c { session = answer.0; is_open = not quit; replies = c.replies ++ answer.1 ∷ [] })

  -- One round of the inner loop, for the text before a line end.
  unfoldable pub take_line : Connection S → Bytes → Connection S
  unfolding handle_line
  take_line c raw = let line : Bytes = trim raw in if is_blank line then c else handle_line c line

  -- The line that was found, and the rounds after it; QUIT leaves both loops.
  unfoldable pub take_next :
      (Connection S → Connection S) → Connection S → Option (Bytes × Bytes) → Connection S
  unfolding take_line
  take_next more c none = c
  take_next more c (some (raw, rest)) =
      let next : Connection S = take_line (record c { buffer = rest }) raw in
      elim next.is_open [ true ↦ more next | false ↦ next ]

  -- The inner loop, while the buffer holds a line end. A round takes two bytes at least, so the
  -- length of the buffer is enough fuel.
  unfoldable pub take_lines : ℕ → Connection S → Connection S
  unfolding take_next
  take_lines zero c = c
  take_lines (suc fuel) c = take_next (take_lines fuel) c (cut_text crlf c.buffer)

  -- One round of the outer loop, for what one `recv` gave.
  unfoldable pub receive : Connection S → Bytes → Connection S
  unfolding take_lines c_string
  receive c received = elim c.is_open [
    | false ↦ c
    | true ↦
        let buffer : Bytes = c.buffer ++ c_string received in
        take_lines (length buffer) (record c { buffer = buffer })
  ]

  unfoldable pub receive_all : Connection S → List Bytes → Connection S
  unfolding receive
  receive_all c [] = c
  receive_all c (received ∷ more) = receive_all (receive c received) more
