-- ===== src/Account.antt =====
-- User accounts, frontend/user_account/user_account_service.cc: the password of a user stands in
-- the store, in the row of the user and the column `password`.
pub mod Logins
use penn_cloud.Prelude.{
  ℕ, Bytes, bytes, bytes_eq, Bool, true, false, ◌||◌, not, ◌++◌, if◌then◌else◌,
}
use penn_cloud.Map.{is_empty}
use penn_cloud.Op.{put, cput}
use penn_cloud.Service.{Service, is_err}

-- `username + "-userinfo"`
abbrev pub user_row : Bytes → Bytes
user_row username = username ++ bytes "-userinfo"

abbrev pub password_column : Bytes
password_column = bytes "password"

abbrev is_blank : Bytes → Bool
is_blank text = bytes_eq text (bytes "")

-- Each method gives the store as it leaves it, and its result. What Put and CPut return is ignored.
module _ {S : Type 0} (service : Service S) where
  unfoldable pub authenticate : S → Bytes → Bytes → S × Bool
  authenticate s username password =
      let (s1, worker) = service.lookup s (user_row username) in
      if is_err worker
      then (s1, false)
      else (let stored : Bytes = service.get s1 worker (user_row username) password_column in
          if is_err stored || is_blank stored then (s1, false) else (s1, bytes_eq stored password))

  unfoldable pub signup : S → Bytes → Bytes → S × Bool
  signup s username password =
      let (s1, worker) = service.lookup s (user_row username) in
      if is_err worker
      then (s1, false)
      else if not (is_err (service.get s1 worker (user_row username) password_column))
      then (s1, false)
      else ((service.write s1 worker (put (user_row username) password_column password)).0, true)

  -- 0 is success, 1 an unknown user, 2 a wrong password and 3 a store that cannot be reached.
  unfoldable pub change_password : S → Bytes → Bytes → Bytes → S × ℕ
  change_password s username old_password new_password =
      let (s1, worker) = service.lookup s (user_row username) in
      if is_err worker
      then (s1, 3)
      else (let stored : Bytes = service.get s1 worker (user_row username) password_column in
          if is_err stored
          then (s1, 1)
          else if not (bytes_eq stored old_password)
          then (s1, 2)
          else (
            (service.write s1 worker
                (cput (user_row username) password_column old_password new_password)).0,
            0,
          ))
