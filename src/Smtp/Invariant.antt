-- ===== src/Smtp/Invariant.antt =====
-- What holds of a session between two lines.
use penn_cloud.Prelude.{
  ℕ, zero, suc, Bytes, ◌≡◌, Bool, true, false, Option, none, some, List, [], ◌∷◌, ◌++◌, All,
  All-append, ◌&&◌, arith, length, cut_text, drop, trim,
}
use penn_cloud.Service.{Service}
use penn_cloud.TextServer.{crlf}
use penn_cloud.Mailbox.{is_blank}
use penn_cloud.Smtp.{
  Session, fresh, is_none, is_local, mail, add_recipient, rcpt, data_command, reset, parts, command,
  text_line, unbracket,
}
use penn_cloud.Smtp.Delivery.{Moment, end_data}
use penn_cloud.Smtp.Connection.{
  Connection, start, handle_line, take_line, take_next, take_lines, receive, c_string, receive_all,
}

-- Recipients of the local domain.
pub record AllLocal (recipients : List Bytes) : Type 0 where
  pub each : All (λ r. is_local r ≡ true) recipients

add-AllLocal :
    (recipients : List Bytes) (r : Bytes)
    → AllLocal recipients
    → is_local r ≡ true
    → AllLocal (recipients ++ r ∷ [])
add-AllLocal recipients r h e = record {
  each = All-append (λ x. is_local x ≡ true) recipients (r ∷ []) h.each (e, tt);
}

nobody-AllLocal : AllLocal []
nobody-AllLocal = record { each = tt }

-- A mail's text is read only with a sender and a recipient; the local recipients are at the local
-- domain, and there are others only with the option for them.
pub record IsSession (extra : Bool) (s : Session) : Type 0 where
  pub data_sender : s.is_data_mode ≡ true → is_blank s.sender ≡ false
  pub data_recipients :
      s.is_data_mode ≡ true → is_none s.valid_recipients && is_none s.non_local_recipients ≡ false
  pub local : AllLocal s.valid_recipients
  pub non_local : extra ≡ false → s.non_local_recipients ≡ []

fresh-IsSession : (extra : Bool) → IsSession extra fresh
unfolding fresh
fresh-IsSession extra = ground (arith, nobody-AllLocal)

-- Outside of a mail's text, the state of the recipients is all that matters.
record IsIdle (extra : Bool) (s : Session) : Type 0 where
  pub mode : s.is_data_mode ≡ false
  pub local : AllLocal s.valid_recipients
  pub non_local : extra ≡ false → s.non_local_recipients ≡ []

IsIdle-IsSession : (extra : Bool) (s : Session) → IsIdle extra s → IsSession extra s
IsIdle-IsSession extra s h = ground arith

mail-IsIdle : (extra : Bool) (s : Session) (m : Bytes) → IsIdle extra s → IsIdle extra (mail s m).0
unfolding mail
mail-IsIdle extra s m h = ground (arith, nobody-AllLocal)

add_recipient-IsIdle :
    (extra : Bool) (s : Session) (r : Bytes)
    → IsIdle extra s
    → IsIdle extra (add_recipient extra s r).0
unfolding add_recipient
add_recipient-IsIdle extra s r h = ground (arith, add-AllLocal s.valid_recipients r h.local)

rcpt-IsIdle :
    (extra : Bool) (s : Session) (m : Bytes) → IsIdle extra s → IsIdle extra (rcpt extra s m).0
unfolding rcpt
rcpt-IsIdle extra s m h =
    ground (arith, add_recipient-IsIdle extra s (unbracket (trim (drop 3 m))) h)

data_command-IsSession :
    (extra : Bool) (s : Session) → IsIdle extra s → IsSession extra (data_command extra s).0
unfolding data_command
data_command-IsSession extra s h = ground arith

reset-IsSession : (extra : Bool) (s : Session) → IsSession extra s → IsSession extra (reset s).0
unfolding reset
reset-IsSession extra s h = ground (arith, nobody-AllLocal)

command-IsSession :
    (extra : Bool) (s : Session) (line : Bytes)
    → s.is_data_mode ≡ false
    → IsSession extra s
    → IsSession extra (command extra s line).0.0
unfolding command
command-IsSession extra s line mode h =
    let idle : IsIdle extra s = record { mode = mode; local = h.local; non_local = h.non_local } in
    ground (
      arith,
      IsIdle-IsSession extra _ (mail-IsIdle extra s (parts line).1 idle),
      IsIdle-IsSession extra _ (rcpt-IsIdle extra s (parts line).1 idle),
      data_command-IsSession extra s idle,
      reset-IsSession extra s h,
    )

text_line-IsSession :
    (extra : Bool) (s : Session) (line : Bytes)
    → IsSession extra s
    → IsSession extra (text_line s line)
unfolding text_line
text_line-IsSession extra s line h = ground arith

module _ {S : Type 0} (service : Service S) (relay : Bytes → Option Bytes) (extra : Bool)
    (moment : ℕ → Moment) where
  end_data-IsSession :
      (m : Moment) (s : S) (session : Session)
      → IsSession extra session
      → IsSession extra (end_data service relay extra m s session).1.0
  unfolding end_data
  end_data-IsSession m s session h = ground (arith, nobody-AllLocal)

  handle_line-IsSession :
      (c : Connection S) (line : Bytes)
      → IsSession extra c.session
      → IsSession extra (handle_line service relay extra moment c line).session
  unfolding handle_line
  handle_line-IsSession c line h = ground (
    arith,
    end_data-IsSession (moment (length c.replies)) c.store c.session h,
    text_line-IsSession extra c.session line h,
    command-IsSession extra c.session line,
  )

  take_line-IsSession :
      (c : Connection S) (raw : Bytes)
      → IsSession extra c.session
      → IsSession extra (take_line service relay extra moment c raw).session
  unfolding take_line
  take_line-IsSession c raw h = ground (arith, handle_line-IsSession c (trim raw) h)

  take_next-IsSession :
      (more : Connection S → Connection S) (c : Connection S) (found : Option (Bytes × Bytes))
      → ((d : Connection S) → IsSession extra d.session → IsSession extra (more d).session)
      → IsSession extra c.session
      → IsSession extra (take_next service relay extra moment more c found).session
  unfolding take_next
  take_next-IsSession more c none keeps h = h
  take_next-IsSession more c (some (raw, rest)) keeps h =
      let next = take_line service relay extra moment (record c { buffer = rest }) raw in
      let kept : IsSession extra next.session =
        take_line-IsSession (record c { buffer = rest }) raw h in
      ground (arith, kept, keeps next kept)

  take_lines-IsSession :
      (fuel : ℕ) (c : Connection S)
      → IsSession extra c.session
      → IsSession extra (take_lines service relay extra moment fuel c).session
  unfolding take_lines
  take_lines-IsSession zero c h = h
  take_lines-IsSession (suc fuel) c h =
      take_next-IsSession (take_lines service relay extra moment fuel) c (cut_text crlf c.buffer)
        (take_lines-IsSession fuel) h

  receive-IsSession :
      (c : Connection S) (received : Bytes)
      → IsSession extra c.session
      → IsSession extra (receive service relay extra moment c received).session
  unfolding receive
  receive-IsSession c received h =
      let buffer : Bytes = c.buffer ++ c_string received in
      ground (arith, take_lines-IsSession (length buffer) (record c { buffer = buffer }) h)

  receive_all-from :
      (c : Connection S) (pieces : List Bytes)
      → IsSession extra c.session
      → IsSession extra (receive_all service relay extra moment c pieces).session
  unfolding receive_all
  receive_all-from c [] h = h
  receive_all-from c (received ∷ more) h =
      receive_all-from (receive service relay extra moment c received) more
        (receive-IsSession c received h)

  -- Whatever pieces a client of the SMTP server sends, a mail is being received only with a sender
  -- that is not blank and with some recipient; every recipient that is taken as local ends in
  -- @localhost, and there is no other one without the option for them.
  pub receive_all-IsSession :
      (s : S) (pieces : List Bytes)
      → IsSession extra (receive_all service relay extra moment (start s) pieces).session
  unfolding start
  receive_all-IsSession s pieces = receive_all-from (start s) pieces (fresh-IsSession extra)
