-- ===== src/Account/Logins.antt =====
-- What users rely on: a password that was set is the one that lets its user in.
use penn_cloud.Prelude.{
  Bytes, bytes_eq, bytes_eq_refl, ◌≡◌, refl, ap, ◌∙◌, Option, none, some, Bool, true, false, arith,
  ◌||◌, ◌&&◌, not, if◌then◌else◌, Bool-cases, inl, inr,
}
use penn_cloud.Op.{Op, put, cput, row}
use penn_cloud.KeyValue
use penn_cloud.KeyValue.{KeyValue}
use penn_cloud.Service.{Service, Serves, is_err}
use penn_cloud.Account.{user_row, password_column, is_blank, authenticate, signup, change_password}

-- What the service answers, from the entry in the map.
abbrev pub accepts : Option Bytes → Bytes → Bool
accepts none password = false
accepts (some stored) password = not (is_err stored || is_blank stored) && bytes_eq stored password

-- The map with a password set.
abbrev pub set_password : Bytes → Bytes → KeyValue → KeyValue
set_password username password f =
    KeyValue.write (put (user_row username) password_column password) f

-- Setting a password of the store's map.
set_password-same :
    (username password : Bytes) (f : KeyValue)
    → set_password username password f (user_row username) password_column ≡ some password
unfolding KeyValue.write
set_password-same username password f =
    ground (arith, bytes_eq_refl (user_row username), bytes_eq_refl password_column)

change-same :
    (username stored old_password new_password : Bytes) (f : KeyValue)
    → f (user_row username) password_column ≡ some stored
    → bytes_eq stored old_password ≡ true
    → KeyValue.write
        (cput (user_row username) password_column old_password new_password)
        f
        (user_row username)
        password_column
      ≡ some new_password
unfolding KeyValue.write
change-same username stored old_password new_password f e known =
    ground (arith, bytes_eq_refl (user_row username), bytes_eq_refl password_column)

module _ {S : Type 0} (service : Service S) (Shows : S → KeyValue → Type 0)
    (At : S → Bytes → Bytes → Type 0) (serves : Serves service Shows At) where
  -- Where a user's password is read from the host that look-up names.
  stored_password :
      (s : S) (f : KeyValue) (username stored : Bytes)
      → Shows s f
      → f (user_row username) password_column ≡ some stored
      → let looked = service.lookup s (user_row username) in
        service.get looked.0 looked.1 (user_row username) password_column ≡ stored
  stored_password s f username stored shows e =
      let key = user_row username in
      serves.get_value _ f _ key password_column stored (serves.lookup_shows s f key shows)
        (serves.lookup_at s f key shows) e

  no_password :
      (s : S) (f : KeyValue) (username : Bytes)
      → Shows s f
      → f (user_row username) password_column ≡ none
      → let looked = service.lookup s (user_row username) in
        is_err (service.get looked.0 looked.1 (user_row username) password_column) ≡ true
  no_password s f username shows e =
      let key = user_row username in
      serves.get_missing _ f _ key password_column (serves.lookup_shows s f key shows)
        (serves.lookup_at s f key shows) e

  -- A write on the host that look-up names.
  looked_up-write :
      (s : S) (f : KeyValue) (op : Op)
      → Shows s f
      → let looked = service.lookup s (row op) in
        Shows (service.write looked.0 looked.1 op).0 (KeyValue.write op f)
  looked_up-write s f op shows =
      serves.write_shows _ f _ op (serves.lookup_shows s f (row op) shows)
        (serves.lookup_at s f (row op) shows)

  signup-missing :
      (s : S) (f : KeyValue) (username password : Bytes)
      → Shows s f
      → f (user_row username) password_column ≡ none
      → ((signup service s username password).1 ≡ true)
        × Shows (signup service s username password).0 (set_password username password f)
  unfolding signup
  signup-missing s f username password shows e = ground (
    arith,
    serves.lookup_host s f (user_row username) shows,
    no_password s f username shows e,
    looked_up-write s f (put (user_row username) password_column password) shows,
  )

  change_password-known :
      (s : S) (f : KeyValue) (username stored old_password new_password : Bytes)
      → Shows s f
      → f (user_row username) password_column ≡ some stored
      → is_err stored ≡ false
      → bytes_eq stored old_password ≡ true
      → let changed = change_password service s username old_password new_password in
        (changed.1 ≡ 0)
        × Shows changed.0
            (KeyValue.write (cput (user_row username) password_column old_password new_password) f)
  unfolding change_password
  change_password-known s f username stored old_password new_password shows e ok known = ground (
    arith,
    serves.lookup_host s f (user_row username) shows,
    stored_password s f username stored shows e,
    looked_up-write s f (cput (user_row username) password_column old_password new_password) shows,
  )

  change_password-unknown :
      (s : S) (f : KeyValue) (username stored old_password new_password : Bytes)
      → Shows s f
      → f (user_row username) password_column ≡ some stored
      → is_err stored ≡ false
      → bytes_eq stored old_password ≡ false
      → let changed = change_password service s username old_password new_password in
        (changed.1 ≡ 2) × Shows changed.0 f
  unfolding change_password
  change_password-unknown s f username stored old_password new_password shows e ok unknown =
      ground (
        arith,
        serves.lookup_host s f (user_row username) shows,
        serves.lookup_shows s f (user_row username) shows,
        stored_password s f username stored shows e,
      )

  -- On a store that serves a map, authentication succeeds exactly if the map holds this password
  -- for the user, and the password is neither empty nor like an error text; the map stays.
  pub authenticate_lem :
      (s : S) (f : KeyValue) (username password : Bytes)
      → Shows s f
      → ((authenticate service s username password).1
          ≡ accepts (f (user_row username) password_column) password)
        × Shows (authenticate service s username password).0 f
  unfolding authenticate
  authenticate_lem s f username password shows = of_entry _ refl
    where
      of_entry :
          (entry : Option Bytes)
          → f (user_row username) password_column ≡ entry
          → ((authenticate service s username password).1 ≡ accepts entry password)
            × Shows (authenticate service s username password).0 f
      of_entry none e = ground (
        arith,
        serves.lookup_host s f (user_row username) shows,
        serves.lookup_shows s f (user_row username) shows,
        no_password s f username shows e,
      )
      of_entry (some stored) e = ground (
        arith,
        serves.lookup_host s f (user_row username) shows,
        serves.lookup_shows s f (user_row username) shows,
        stored_password s f username stored shows e,
      )

  authenticate-some :
      (s : S) (f : KeyValue) (username stored guess : Bytes)
      → Shows s f
      → f (user_row username) password_column ≡ some stored
      → (authenticate service s username guess).1 ≡ accepts (some stored) guess
  authenticate-some s f username stored guess shows e =
      (authenticate_lem s f username guess shows).0 ∙ ap (λ entry. accepts entry guess) e

  -- On a store that serves a map, sign-up of a user that the map does not hold sets the password,
  -- and from then on exactly this password lets the user in, if it is neither empty nor like an
  -- error text.
  pub signup-authenticate :
      (s : S) (f : KeyValue) (username password guess : Bytes)
      → Shows s f
      → f (user_row username) password_column ≡ none
      → ((signup service s username password).1 ≡ true)
        × Shows (signup service s username password).0 (set_password username password f)
        × ((authenticate service (signup service s username password).0 username guess).1
            ≡ accepts (some password) guess)
  signup-authenticate s f username password guess shows e =
      let (ok, after) = signup-missing s f username password shows e in
      (
        ok,
        after,
        authenticate-some _ _ username password guess after (set_password-same username password f),
      )

  -- On a store that serves a map, sign-up under the name of a user whose password is no error text
  -- is refused, and changes nothing.
  pub signup-taken :
      (s : S) (f : KeyValue) (username password stored : Bytes)
      → Shows s f
      → f (user_row username) password_column ≡ some stored
      → is_err stored ≡ false
      → ((signup service s username password).1 ≡ false)
        × Shows (signup service s username password).0 f
  unfolding signup
  signup-taken s f username password stored shows e ok = ground (
    arith,
    serves.lookup_host s f (user_row username) shows,
    serves.lookup_shows s f (user_row username) shows,
    stored_password s f username stored shows e,
  )

  -- On a store that serves a map, a user whose password is no error text changes it exactly with
  -- the old one; the answer is 0 then and else 2. After a change exactly the new password lets the
  -- user in, if it is neither empty nor like an error text, and else exactly the stored one.
  pub change_password-authenticate :
      (s : S) (f : KeyValue) (username stored old_password new_password guess : Bytes)
      → Shows s f
      → f (user_row username) password_column ≡ some stored
      → is_err stored ≡ false
      → let changed = change_password service s username old_password new_password in
        let known = bytes_eq stored old_password in
        (changed.1 ≡ (if known then 0 else 2))
        × ((authenticate service changed.0 username guess).1
            ≡ accepts (some (if known then new_password else stored)) guess)
  change_password-authenticate s f username stored old_password new_password guess shows e ok =
      elim (Bool-cases (bytes_eq stored old_password)) [
        | inl known ↦
            let (answer, after) =
              change_password-known s f username stored old_password new_password shows e ok
                known in
            rw known (
              answer,
              authenticate-some _ _ username new_password guess after
                  (change-same username stored old_password new_password f e known),
            )
        | inr unknown ↦
            let (answer, after) =
              change_password-unknown s f username stored old_password new_password shows e ok
                unknown in
            rw unknown (answer, authenticate-some _ f username stored guess after e)
      ]
