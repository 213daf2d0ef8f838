-- ===== src/Balancer.antt =====
-- The load balancer, frontend/load_balancer.cc. Whether a server answers its health check is a
-- parameter, `is_alive idx` for the server at that place of the list.
pub mod Rounds
use penn_cloud.Prelude.{
  ℕ, zero, suc, ◌+◌, ◌%◌, Bytes, bytes, bytes_eq, Bool, true, false, Option, none, some, List, [],
  ◌∷◌, ◌++◌, length, to_string, not, ◌&&◌, ◌||◌, if◌then◌else◌, ◌==◌,
}
use penn_cloud.TextServer.{crlf}
use penn_cloud.Mailbox.{is_blank}
use penn_cloud.TextServer.Commands.{next_word}

-- `FRONTENDS.size()`
abbrev pub frontends : ℕ
frontends = 3

-- The ports of the list.
abbrev pub port : ℕ → Bytes
port zero = bytes "8081"
port (suc zero) = bytes "8082"
port _ = bytes "8083"

abbrev pub frontend : ℕ → Bytes
frontend idx = bytes "http://127.0.0.1:" ++ port idx

abbrev begins_with : ℕ → Bytes → Bool
begins_with x [] = false
begins_with x (y ∷ s) = y == x

module _ (is_alive : ℕ → Bool) where
  -- The rounds of the loop from `idx` on: `n` are left.
  unfoldable pub find_alive : ℕ → ℕ → Option ℕ
  find_alive zero idx = none
  find_alive (suc n) idx =
      let rest = find_alive n ((idx + 1) % frontends) in if is_alive idx then some idx else rest

  after : ℕ → Option ℕ → ℕ × Option ℕ
  after next_frontend none = (next_frontend, none)
  after next_frontend (some idx) = ((idx + 1) % frontends, some idx)

  -- The next server to begin with, and the place of the server that was found; `none` is the
  -- empty string.
  unfoldable pub select_frontend : ℕ → ℕ × Option ℕ
  unfolding find_alive after
  select_frontend next_frontend =
      after next_frontend (find_alive frontends (next_frontend % frontends))

  alive_text : Bool → Bytes
  alive_text true = bytes "true"
  alive_text false = bytes "false"

  -- One server's part of the health report.
  health_of : ℕ → Bytes
  unfolding alive_text
  health_of i =
      bytes "{\"id\":"
      ++ (to_string (i + 1)
          ++ (bytes ",\"port\":\""
              ++ (port i ++ (bytes "\",\"alive\":" ++ (alive_text (is_alive i) ++ bytes "}")))))

  health : Bytes
  unfolding health_of
  health =
      bytes "["
      ++ (health_of 0 ++ (bytes "," ++ (health_of 1 ++ (bytes "," ++ (health_of 2 ++ bytes "]")))))

  health_response : Bytes
  unfolding health crlf
  health_response =
      bytes "HTTP/1.1 200 OK"
      ++ (crlf
          ++ (bytes "Content-Type: application/json"
              ++ (crlf
                  ++ (bytes "Content-Length: "
                      ++ (to_string (length health)
                          ++ (crlf
                              ++ (bytes "Connection: close" ++ (crlf ++ (crlf ++ health)))))))))

  close_lines : Bytes
  unfolding crlf
  close_lines = bytes "Content-Length: 0" ++ (crlf ++ (bytes "Connection: close" ++ (crlf ++ crlf)))

  -- The answer to a request for a path, from the server that was selected.
  unfoldable pub redirect : Bytes → Option ℕ → Bytes
  unfolding close_lines crlf
  redirect path none = bytes "HTTP/1.1 503 Service Unavailable" ++ (crlf ++ close_lines)
  redirect path (some idx) =
      bytes "HTTP/1.1 307 Temporary Redirect"
      ++ (crlf ++ (bytes "Location: " ++ ((frontend idx ++ path) ++ (crlf ++ close_lines))))

  -- The next server to begin with, and what is sent; `none` closes the connection at once.
  unfoldable pub handle_client : ℕ → Option (Bytes × Bytes) → ℕ × Option Bytes
  unfolding health_response select_frontend redirect
  handle_client next_frontend none = (next_frontend, none)
  handle_client next_frontend (some (method, path)) =
      let (next, target) = select_frontend next_frontend in
      if bytes_eq method (bytes "GET") && bytes_eq path (bytes "/health")
      then (next_frontend, some health_response)
      else (next, some (redirect path target))

-- The text before the first line end, where there is one.
unfoldable pub first_line : Bytes → Option Bytes
first_line [] = none
first_line (x ∷ s) =
    let rest = first_line s in
    if x == 13 && begins_with 10 s
    then some []
    else elim rest [ none ↦ none | some line ↦ some (x ∷ line) ]

-- What one `recv` of up to 4095 bytes gave: the method and the path.
unfoldable pub read_request_line : Bytes → Option (Bytes × Bytes)
unfolding first_line
read_request_line req = elim (first_line req) [
  | none ↦ none
  | some line ↦
      let (method, s) = next_word line in
      let (path, s1) = next_word s in
      if not (is_blank method) && not (is_blank path) then some (method, path) else none
]
