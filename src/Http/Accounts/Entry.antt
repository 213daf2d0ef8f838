-- ===== src/Http/Accounts/Entry.antt =====
-- Logging in by the form.
use penn_cloud.Prelude.{
  ℕ, ◌<◌, Bytes, bytes, bytes_eq, ◌≡◌, refl, ◌∙◌, true, false, none, some, [], if◌then◌else◌,
  to_string,
}
use penn_cloud.KeyValue.{KeyValue}
use penn_cloud.Service.{Service, Serves, is_err}
use penn_cloud.Account.{user_row, password_column}
use penn_cloud.Account.Logins.{accepts, authenticate_lem}
use penn_cloud.Storage.Requests.{body_start, field}
use penn_cloud.Http.Headers.{parse_query_params}
use penn_cloud.Http.Sessions.{session_row, active_column, get_username_from_session}
use penn_cloud.Http.Sessions.Logins.{user_in, generate_session_cookie-user_in}
use penn_cloud.Http.Accounts.{credentials, logged_in, logged_in_with, invalid_credentials}

-- A field of the form in the body of a request.
abbrev pub form_field : Bytes → Bytes → Bytes
form_field name request = field name (parse_query_params (body_start request))

module _ {S : Type 0} (service : Service S) (Shows : S → KeyValue → Type 0)
    (At : S → Bytes → Bytes → Type 0) (serves : Serves service Shows At) where
  -- On a store that serves a map, a form without the password that the map holds for its user opens
  -- no session: the answer is the page of invalid credentials, and the map stays as it is.
  pub credentials-refused :
      (random : ℕ → ℕ) (fuel : ℕ) (s : S) (f : KeyValue) (request : Bytes)
      → Shows s f
      → accepts
          (f (user_row (form_field (bytes "username") request)) password_column)
          (form_field (bytes "password") request)
        ≡ false
      → (s1 : S) × (credentials service random fuel s request ≡ some (s1, invalid_credentials))
        × Shows s1 f
  unfolding credentials
  credentials-refused random fuel s f request shows unknown =
      let (known, after) =
        authenticate_lem service Shows At serves s f (form_field (bytes "username") request)
          (form_field (bytes "password") request) shows in
      (_, rw (known ∙ unknown, credentials) refl, after)

  -- On a store that serves a map, the form of a user with the password that the map holds, neither
  -- empty nor like an error text, opens a session as soon as one of the first numbers of rand names
  -- no session, if the user's name is not like an error text: the response carries the session's
  -- number, which had no user before and has this one from then on, and every other session has the
  -- user that it had. The name of the list of active users is not taken for a session here.
  pub credentials-user_in :
      (random : ℕ → ℕ) (fuel j : ℕ) (s : S) (f : KeyValue) (request other : Bytes)
      → Shows s f
      → accepts
          (f (user_row (form_field (bytes "username") request)) password_column)
          (form_field (bytes "password") request)
        ≡ true
      → is_err (form_field (bytes "username") request) ≡ false
      → j < fuel
      → f session_row (to_string (random j)) ≡ none
      → bytes_eq other active_column ≡ false
      → let u = form_field (bytes "username") request in
        (s1 : S) × (n : ℕ) × (credentials service random fuel s request
          ≡ some (s1, logged_in u (to_string n)))
        × (user_in (f session_row (to_string n)) ≡ [])
        × ((get_username_from_session service s1 other).1
            ≡ (if bytes_eq (to_string n) other then u else user_in (f session_row other)))
  unfolding credentials logged_in_with
  credentials-user_in random fuel j s f request other shows right plain small free apart =
      let u = form_field (bytes "username") request in
      let (known, after) =
        authenticate_lem service Shows At serves s f u (form_field (bytes "password") request)
          shows in
      let (s1, n, opened, unused, users) =
        generate_session_cookie-user_in service Shows At serves random fuel j _ f u other after
          small free plain apart in
      (s1, n, rw (known ∙ right, opened, credentials) refl, unused, users)
