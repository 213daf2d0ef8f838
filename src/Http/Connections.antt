-- ===== src/Http/Connections.antt =====
-- The connections of frontend/http_server.cc: the loop of one client, and the sockets of all.
use penn_cloud.Prelude.{
  ℕ, ◌+◌, Bytes, bytes, bytes_eq, Option, none, some, List, [], ◌∷◌, ◌++◌, ◌==◌, not, if◌then◌else◌,
}
use penn_cloud.Service.{Service}
use penn_cloud.Smtp.Connection.{c_string}
use penn_cloud.Admin.Control.{Servers}
use penn_cloud.Http.Headers.{extract_connection_header}
use penn_cloud.Http.Routes.{route_of}
use penn_cloud.Http.Serving.{Surroundings, answer}

-- The store, the responses, and what was sent to the SMTP server; `none` is an exception.
abbrev Replied : Type 0 → Type 0
Replied S = Option (S × List Bytes × List Bytes)

behind_reply : {S : Type 0} → Bytes → List Bytes → Replied S → Replied S
behind_reply res sent none = none
behind_reply res sent (some (s, responses, more)) = some (s, res ∷ responses, sent ++ more)

module _ {S : Type 0} (service : Service S) (servers : Servers S) where
  -- The loop of `client_connection` over what `recv` gives. A request that does not ask to be kept
  -- alive is not answered, and ends the loop. `around k` is what surrounds the request `k`.
  unfoldable pub client_connection : (ℕ → Surroundings) → ℕ → S → List Bytes → Replied S
  unfolding c_string extract_connection_header answer route_of behind_reply
  client_connection around k s [] = some (s, [], [])
  client_connection around k s (received ∷ pieces) =
      let request : Bytes = c_string received in
      if not (bytes_eq (extract_connection_header request) (bytes "keep-alive"))
      then some (s, [], [])
      else elim (answer service servers (around k) s request (route_of request)) [
        | none ↦ none
        | some (s1, res, sent) ↦ behind_reply res sent (client_connection around (k + 1) s1 pieces)
      ]

-- `sockets_active` and `buffer_clients`.
pub record Clients : Type 0 where
  pub sockets_active : List ℕ
  pub buffer_clients : List (ℕ × Bytes)

-- `buffer_clients[client] += buffer`
unfoldable pub add_to_buffer : ℕ → Bytes → List (ℕ × Bytes) → List (ℕ × Bytes)
add_to_buffer client buffer [] = (client, buffer) ∷ []
add_to_buffer client buffer ((socket, text) ∷ buffers) =
    if socket == client
    then (socket, text ++ buffer) ∷ buffers
    else (socket, text) ∷ add_to_buffer client buffer buffers

erase_buffer : ℕ → List (ℕ × Bytes) → List (ℕ × Bytes)
erase_buffer client [] = []
erase_buffer client ((socket, text) ∷ buffers) =
    let rest = erase_buffer client buffers in
    if socket == client then rest else (socket, text) ∷ rest

other_sockets : ℕ → List ℕ → List ℕ
other_sockets client [] = []
other_sockets client (socket ∷ sockets) =
    let rest = other_sockets client sockets in if socket == client then rest else socket ∷ rest

-- The client's socket is closed by the caller's system.
unfoldable pub remove_client_connection : ℕ → Clients → Clients
unfolding erase_buffer other_sockets
remove_client_connection client c = record {
  sockets_active = other_sockets client c.sockets_active;
  buffer_clients = erase_buffer client c.buffer_clients;
}

notices : List ℕ → List (ℕ × Bytes)
notices [] = []
notices (client ∷ clients) =
    (client, bytes "HTTP/1.1 503 Server shutting down\r\n") ∷ notices clients

-- What each client is sent, and the clients afterwards.
unfoldable pub server_shutdown : Clients → Clients × List (ℕ × Bytes)
unfolding notices
server_shutdown c = (record { sockets_active = []; buffer_clients = [] }, notices c.sockets_active)
