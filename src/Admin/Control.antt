-- ===== src/Admin/Control.antt =====
-- What the administration asks of the servers, frontend/admin/admin_service.cc. `none` stands for an
-- exception and for a number that is no index of the vector of clients.
pub mod Toggled
use penn_cloud.Prelude.{
  ℕ, zero, suc, ◌+◌, ◌*◌, ◌^◌, Bytes, bytes, bytes_eq, Bool, true, false, Option, none, some, List,
  [], ◌∷◌, ◌++◌, ◌==◌, leb, ltb, ◌&&◌, ◌||◌, not, if◌then◌else◌, text_of, to_string, contains,
  cut_text, skip_spaces, length, drop,
}
use penn_cloud.Tablet.{Tablet}
use penn_cloud.Serializer.{deserialize_tablet}
use penn_cloud.Service.{is_err}
use penn_cloud.TextServer.{crlf}
use penn_cloud.Storage.Names.{split_string}
use penn_cloud.Storage.Requests.{is_digit, leading_number}
use penn_cloud.Admin.Pages.{frontend_status, home_page}
use penn_cloud.Admin.Tablets.{table_page}

-- The calls of the administration: `Alive` of the coordinator, `AdminConsole` and `CopyTablet` of
-- the client to a worker, what the server at port 8080 answers to a request for its health, and
-- `system` of the C library, whose result is a word of 32 bits.
pub record Servers (S : Type 0) : Type 0 where
  pub alive : S → ℕ → Bytes
  pub admin_console : S → ℕ → Bytes → Bytes → Option (S × Bytes)
  pub copy_tablet : S → ℕ → ℕ → Bytes
  pub health : S → Bytes
  pub system : S → Bytes → S × ℕ

-- `stoi` of a number that is not negative: behind white space and a plus sign the digits in front.
-- It throws without a digit and for a number that is no `int`.
unfoldable pub number_of : Bytes → Option ℕ
unfolding is_digit leading_number
number_of [] = none
number_of (x ∷ s) =
    let n : ℕ = leading_number 0 (x ∷ s) in if is_digit x && ltb n (2 ^ 31) then some n else none

without_plus : Bytes → Bytes
without_plus [] = []
without_plus (x ∷ s) = if x == b'+' then s else x ∷ s

unfoldable pub stoi : Bytes → Option ℕ
unfolding skip_spaces number_of without_plus
stoi s = number_of (without_plus (skip_spaces s))

-- `workerClients_[workerId - 1]`: the number of a worker that there is a client of.
unfoldable pub worker_client : ℕ → Option ℕ
worker_client worker_id = if leb 1 worker_id && leb worker_id 6 then some worker_id else none

-- Whether the console accepted the command.
accepted : {S : Type 0} → Option (S × Bytes) → Option (S × Bool)
unfolding is_err
accepted none = none
accepted (some (s, res)) = some (s, not (is_err res))

-- `text.substr(text.find("\r\n\r\n") + 4)`, where `npos + 4` is 3.
unfoldable pub behind_head : Bytes → Option Bytes
unfolding cut_text crlf
behind_head text = elim (cut_text (crlf ++ crlf) text) [
  | some (head, body) ↦ some body
  | none ↦ if leb 3 (length text) then some (drop 3 text) else none
]

module _ {S : Type 0} (servers : Servers S) where
  unfoldable pub console : S → ℕ → Bytes → Option (S × Bool)
  unfolding worker_client accepted
  console s worker_id command = elim (worker_client worker_id) [
    | none ↦ none
    | some id ↦ accepted (servers.admin_console s id (bytes "admin") command)
  ]

  unfoldable pub shutdown_server : S → ℕ → Option (S × Bool)
  unfolding console
  shutdown_server s worker_id = console s worker_id (bytes "SHUTDOWN")

  unfoldable pub restart_server : S → ℕ → Option (S × Bool)
  unfolding console
  restart_server s worker_id = console s worker_id (bytes "RESTART")

  unfoldable pub handle_toggle : S → Bytes → Bytes → Option (S × Bool)
  unfolding stoi shutdown_server restart_server
  handle_toggle s worker command = elim (stoi worker) [
    | none ↦ none
    | some worker_id ↦
        if bytes_eq command (bytes "shutdown")
        then shutdown_server s worker_id
        else restart_server s worker_id
  ]

  unfoldable pub is_alive : S → ℕ → Bool
  is_alive s id = bytes_eq (servers.alive s id) (bytes "Alive")

  -- The loop over the workers, with a comma behind each but the last.
  statuses_from : ℕ → S → ℕ → Bytes
  unfolding is_alive text_of to_string
  statuses_from zero s i = []
  statuses_from (suc rounds) s i = text_of (
      bytes "{\"id\":"
      ∷ to_string i
      ∷ bytes ",\"alive\":"
      ∷ (if is_alive s i then bytes "true" else bytes "false")
      ∷ bytes "}"
      ∷ (if i == 6 then [] else bytes ",")
      ∷ statuses_from rounds s (i + 1)
      ∷ [])

  unfoldable pub fetch_worker_statuses : S → Option Bytes
  unfolding statuses_from behind_head text_of
  fetch_worker_statuses s = elim (behind_head (servers.health s)) [
    | none ↦ none
    | some frontends ↦ some (
        text_of (
          bytes "{\"workers\":["
          ∷ statuses_from 6 s 1
          ∷ bytes "],"
          ∷ bytes "\"frontends\":"
          ∷ frontends
          ∷ bytes "}"
          ∷ []))
  ]

  -- The states of the workers are asked for, but the page does not show them.
  unfoldable pub home : S → Option Bytes
  unfolding behind_head split_string frontend_status home_page
  home s = elim (behind_head (servers.health s)) [
    | none ↦ none
    | some frontends ↦ some (home_page (frontend_status (split_string b',' frontends)))
  ]

  run_command : S → Bytes → S × Bool
  run_command s cmd =
      let (s1, result) = servers.system s cmd in
      (s1, result == 0 || (result == 15 || result == 256))

  unfoldable pub handle_frontend_toggle : S → Bytes → Bytes → S × Bool
  unfolding run_command
  handle_frontend_toggle s port action =
      if bytes_eq action (bytes "shutdown")
      then run_command s (bytes "pkill -f 'http_server.*-p " ++ (port ++ bytes "'"))
      else if bytes_eq action (bytes "restart")
      then run_command s (bytes "./http_server -p " ++ (port ++ bytes " &"))
      else (s, false)

  -- `iterate` is the order in which the maps are iterated and `random k` what the call `k` of `rand`
  -- gives from now on; how many there were stands in front of the page.
  unfoldable pub tablet_page : (Tablet → Tablet) → (ℕ → ℕ) → S → ℕ → ℕ → Option (ℕ × Bytes)
  unfolding worker_client is_err deserialize_tablet table_page
  tablet_page iterate random s worker_id tablet_id = elim (worker_client worker_id) [
    | none ↦ none
    | some id ↦
        let binary : Bytes = servers.copy_tablet s id tablet_id in
        let (table, ok) = deserialize_tablet [] binary in
        some (
          if is_err binary
          then (
            0,
            bytes
                "<html><body><h1>Could not load tablet data</h1><br><a href='/admin/dashboard'>Back</a></body></html>",
          )
          else if not ok
          then (
            0,
            bytes
                "<html><body><h1>Deserialization failed</h1><br><a href='/admin/dashboard'>Back</a></body></html>",
          )
          else table_page random worker_id tablet_id (iterate table))
  ]
