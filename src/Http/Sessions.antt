-- ===== src/Http/Sessions.antt =====
-- The sessions of frontend/http_server.cc: the row `session-ids` holds the user of each session and
-- the list of those who are active.
pub mod Cookies
pub mod Logins
use penn_cloud.Prelude.{
  ℕ, zero, suc, ◌+◌, Bytes, bytes, bytes_eq, Bool, true, false, Option, none, some, List, [], ◌∷◌,
  ◌++◌, ◌||◌, ◌&&◌, not, if◌then◌else◌, getlines, to_string,
}
use penn_cloud.Op.{put, cput, delete}
use penn_cloud.Service.{Service, is_err}
use penn_cloud.Mailbox.{is_blank}
use penn_cloud.TextServer.{cut}

abbrev pub session_row : Bytes
session_row = bytes "session-ids"

abbrev pub active_column : Bytes
active_column = bytes "active-users"

-- An entry of the list of active users is that of the session.
unfoldable pub is_of_session : Bytes → Bytes → Bool
unfolding cut
is_of_session sid userinfo = elim (cut b':' userinfo) [
  | none ↦ false
  | some (key, value) ↦ bytes_eq sid value
]

-- The loop over the entries. `found` is never reset, so nothing behind the entry is kept.
unfoldable pub remaining_users : Bytes → List Bytes → Bytes
unfolding is_of_session
remaining_users sid [] = []
remaining_users sid (userinfo ∷ entries) =
    let rest = remaining_users sid entries in
    if is_of_session sid userinfo then [] else userinfo ++ b';' ∷ rest

module _ {S : Type 0} (service : Service S) where
  -- The user of a session, or nothing.
  unfoldable pub get_username_from_session : S → Bytes → S × Bytes
  unfolding is_err
  get_username_from_session s session_id =
      let (s1, worker) = service.lookup s session_row in
      let username : Bytes = service.get s1 worker session_row session_id in
      if is_err worker then (s1, []) else (s1, if is_err username then [] else username)

  -- The numbers of `rand` are tried until one names no session; `none` is more of them than the fuel.
  unfoldable pub free_sid : (ℕ → ℕ) → ℕ → ℕ → S → Bytes → Option Bytes
  unfolding is_err to_string
  free_sid random zero k s worker = none
  free_sid random (suc fuel) k s worker =
      let sid : Bytes = to_string (random k) in
      let stored : Bytes = service.get s worker session_row sid in
      let more = free_sid random fuel (k + 1) s worker in
      if not (is_blank stored) && not (is_err stored) then more else some sid

  -- The session of a user, and its entry in the list.
  unfoldable pub open_session : S → Bytes → Bytes → Bytes → S
  unfolding is_err
  open_session s worker sid username =
      let active_users : Bytes = service.get s worker session_row active_column in
      let userinfo : Bytes = username ++ b':' ∷ (sid ++ b';' ∷ []) in
      let s1 : S = (service.write s worker (put session_row sid username)).0 in
      if is_err active_users
      then (service.write s1 worker (put session_row active_column userinfo)).0
      else (service.write s1 worker
          (cput session_row active_column active_users (active_users ++ b';' ∷ userinfo))).0

  -- `random k` is what the call `k` of `rand` gives.
  unfoldable pub generate_session_cookie : (ℕ → ℕ) → ℕ → S → Bytes → Option (S × Bytes)
  unfolding is_err free_sid open_session
  generate_session_cookie random fuel s username =
      let (s1, worker) = service.lookup s session_row in
      if is_err worker then some (s1, bytes "error") else elim (free_sid random fuel 0 s1 worker) [
        | none ↦ none
        | some sid ↦ some (open_session s1 worker sid username, sid)
      ]

  unfoldable pub handle_logout : S → Bytes → S
  unfolding is_err remaining_users getlines
  handle_logout s sid =
      let (s1, worker) = service.lookup s session_row in
      let active_users : Bytes = service.get s1 worker session_row active_column in
      let updated : Bytes = remaining_users sid (getlines b';' active_users) in
      if is_err worker
      then s1
      else (service.write (service.write s1 worker (delete session_row sid)).0 worker
          (cput session_row active_column active_users updated)).0
