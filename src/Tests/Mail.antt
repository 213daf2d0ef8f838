-- ===== src/Tests/Mail.antt =====
-- The SMTP server, on a single node as its store.
use penn_cloud.Prelude.{
  ℕ, Bytes, bytes, bytes_eq, ◌≡◌, refl, true, false, Option, none, some, List, [], ◌∷◌, ◌++◌, All,
  inr, cut_text,
}
use penn_cloud.Tablet.{Tablet, cell}
use penn_cloud.Map.{lookup}
use penn_cloud.KeyValue.{KeyValue}
use penn_cloud.Service.{Serves, is_err}
use penn_cloud.SingleNode.Serving.{Shows}
use penn_cloud.Tests.SingleHost.{service, At, service-Serves}
use penn_cloud.Metadata.{create_metadata, encrypt_metadata}
use penn_cloud.Mailbox.{text}
use penn_cloud.Worker.Restart.{concat}
use penn_cloud.TextServer.{crlf}
use penn_cloud.TextServer.Lines.{Lacks}
use penn_cloud.Smtp.Delivery.{Moment, deliver, inbox, sent_box}
use penn_cloud.Smtp.Connection.{start, receive, receive_all}
use penn_cloud.Smtp.Invariant.{IsSession, receive_all-IsSession}
use penn_cloud.Smtp.Pieces.{outcome, receive_all-concat, receive-no_line}
use penn_cloud.Smtp.Inbox.{IsBox, delivered, deliver-Shows}

abbrev host : Bytes
host = bytes "127.0.0.1:50051"

host-not_err : is_err host ≡ false
unfolding is_err bytes_eq
host-not_err = refl

node-Serves : Serves (service host) Shows At
node-Serves = service-Serves host host-not_err

-- No other server can be reached.
abbrev unreachable : Bytes → Option Bytes
unreachable recipient = some (bytes "MX record not found")

abbrev noon : ℕ → Moment
noon k = record {
  timestamp = bytes "2025-05-01 12:00:00";
  date = bytes "Thu, 01 May 2025 12:00:00 +0000";
  now = bytes "1746100800";
  random = k;
}

abbrev line : Bytes → Bytes
line s = s ++ crlf

abbrev pieces : List Bytes
pieces =
    line (bytes "HELO a")
    ∷ bytes "MAIL FROM:<ann@loc"
    ∷ line (bytes "alhost>")
    ∷ line (bytes "RCPT TO:<bob@localhost>")
    ∷ line (bytes "DATA")
    ∷ []

receive_all-IsSession_example :
    IsSession false (receive_all (service host) unreachable false noon (start []) pieces).session
receive_all-IsSession_example =
    receive_all-IsSession (service host) unreachable false noon [] pieces

abbrev cut_command : List Bytes
cut_command = bytes "NO" ∷ bytes "OP" ∷ []

cut_command-Lacks : All (Lacks 0) cut_command
cut_command-Lacks = ((refl, (refl, tt)), ((refl, (refl, tt)), tt))

receive_all-concat_example :
    outcome
      (service host)
      unreachable
      false
      noon
      (receive_all (service host) unreachable false noon (start []) cut_command)
    ≡ outcome
        (service host)
        unreachable
        false
        noon
        (receive (service host) unreachable false noon (start []) (concat cut_command))
receive_all-concat_example =
    receive_all-concat (service host) unreachable false noon (start []) (bytes "NO")
      (bytes "OP" ∷ []) cut_command-Lacks

start-open : (start {S = Tablet} []).is_open ≡ true
unfolding start
start-open = refl

after_command-open :
    (receive (service host) unreachable false noon (start []) (bytes "NOOP")).is_open ≡ true
unfolding receive start cut_text bytes_eq
after_command-open = refl

receive-no_line_example :
    cut_text crlf (receive (service host) unreachable false noon (start []) (bytes "NOOP")).buffer
    ≡ none
receive-no_line_example =
    receive-no_line (service host) unreachable false noon (start []) (bytes "NOOP") start-open
      after_command-open

abbrev nothing : KeyValue
nothing r c = none

empty-Shows : Shows [] nothing
unfolding cell lookup
empty-Shows r c = refl

no_ids-not_err : is_err (text []) ≡ false
unfolding is_err text bytes_eq
no_ids-not_err = refl

empty-IsBox : (row : Bytes) → IsBox nothing row []
empty-IsBox row = record { listed = inr (refl, refl); formed = tt; no_err = no_ids-not_err }

abbrev ann : Bytes
ann = bytes "ann@localhost"

abbrev bob : Bytes
bob = bytes "bob@localhost"

abbrev greeting_id : Bytes
greeting_id = encrypt_metadata (create_metadata ann bob (bytes "Hi") (bytes "2025-05-01 12:00:00"))

deliver-Shows_example :
    Shows
      (deliver (service host) [] ann (bytes "Hi") (bytes "2025-05-01 12:00:00") (bytes "x\n") bob)
      (delivered ann bob greeting_id (bytes "x\n") [] [] nothing)
deliver-Shows_example =
    deliver-Shows (service host) Shows At node-Serves [] nothing ann (bytes "Hi")
      (bytes "2025-05-01 12:00:00") (bytes "x\n") bob [] [] empty-Shows (empty-IsBox (inbox bob))
      (empty-IsBox (sent_box ann))
