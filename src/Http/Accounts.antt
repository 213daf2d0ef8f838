-- ===== src/Http/Accounts.antt =====
-- The pages of user accounts and of logging in and out, frontend/http_server.cc.
pub mod Entry
use penn_cloud.Prelude.{
  ℕ, Bytes, bytes, bytes_eq, Bool, Option, none, some, List, [], ◌∷◌, ◌++◌, ◌==◌, if◌then◌else◌,
  text_of, length,
}
use penn_cloud.Map.{Map}
use penn_cloud.Op.{put}
use penn_cloud.Service.{Service, is_err}
use penn_cloud.Account.{authenticate, signup, change_password, user_row, password_column}
use penn_cloud.Storage.Requests.{body_start, field}
use penn_cloud.Http.Headers.{
  build_http_header, http_response, html, parse_query_params, extract_session_id,
}
use penn_cloud.Http.Sessions.{generate_session_cookie, get_username_from_session, handle_logout}

-- The header alone for HEAD, or all of the response.
unfoldable pub head_or_all : Bool → Bytes → Bytes → Bytes
unfolding build_http_header http_response
head_or_all is_head status body =
    if is_head then build_http_header status html (length body) [] else http_response status body

unfoldable pub set_cookie : Bytes → Bytes
set_cookie sid = bytes "Set-Cookie: session_id=" ++ (sid ++ bytes "; Path=/; HttpOnly\r\n")

user_dashboard : Bytes → Bytes
unfolding text_of
user_dashboard u = text_of (
    bytes "\n"
    ∷ bytes "\t\t\t\t\t\t<!DOCTYPE html><html><head><title>Dashboard</title></head>\n"
    ∷ bytes "\t\t\t\t\t\t<body><h1>Welcome "
    ∷ u
    ∷ bytes "</h1>\n"
    ∷ bytes "\t\t\t\t\t\t<nav>\n"
    ∷ bytes "\t\t\t\t\t\t  <a href=\"/email.html\">Email</a> |\n"
    ∷ bytes "\t\t\t\t\t\t  <a href=\"/storage\">Storage</a>\n"
    ∷ bytes "\t\t\t\t\t\t</nav>\n"
    ∷ bytes "\t\t\t\t\t\t</body></html>\n"
    ∷ bytes "\t\t\t\t\t\t"
    ∷ [])

servers_down : Bytes
unfolding http_response
servers_down =
    http_response (bytes "503 Service Unavailable")
      (bytes "<html><body>Servers down, sorry for the inconvenience!</body></html>")

-- The response to a user who logged in, by the session's number.
unfoldable pub logged_in : Bytes → Bytes → Bytes
unfolding servers_down build_http_header set_cookie user_dashboard
logged_in u sid =
    if bytes_eq sid (bytes "error")
    then servers_down
    else if bytes_eq u (bytes "admin")
    then build_http_header (bytes "302 Found") html 0
        (set_cookie sid ++ bytes "Location: /admin/dashboard\r\n")
    else build_http_header (bytes "200 OK") html (length (user_dashboard u)) (set_cookie sid)
      ++ user_dashboard u

unfoldable pub invalid_credentials : Bytes
unfolding http_response
invalid_credentials = http_response (bytes "401 Unauthorized") (
    bytes
      "<html><body><h1>Invalid credentials</h1><a href='/login.html'>Try again</a></body></html>")

logged_in_with : {S : Type 0} → Bytes → Option (S × Bytes) → Option (S × Bytes)
unfolding logged_in
logged_in_with u none = none
logged_in_with u (some (s, sid)) = some (s, logged_in u sid)

-- The response to a change of the password, by what changePassword returned.
unfoldable pub password_page : Bool → ℕ → Bytes
unfolding head_or_all build_http_header http_response
password_page is_head response =
    if response == 0
    then head_or_all is_head (bytes "200 OK")
        (bytes "<html><body><h1>Password changed</h1><a href='/login.html'>Login</a></body></html>")
    else if response == 1
    then head_or_all is_head (bytes "404 Not Found")
        (bytes "<html><body>User not found</body></html>")
    else if response == 2
    then head_or_all is_head (bytes "401 Unauthorized")
        (bytes "<html><body>Wrong old password</body></html>")
    else if is_head
    then build_http_header (bytes "503 Service Unavailable") html
        (length (bytes "<html><body>Servers down, sorry for the inconvenience!</body></html>")) []
    else http_response (bytes "503 Service Unavailable")
        (bytes "<html><body>Wrong old password</body></html>")

module _ {S : Type 0} (service : Service S) where
  unfoldable pub credentials : (ℕ → ℕ) → ℕ → S → Bytes → Option (S × Bytes)
  unfolding body_start parse_query_params field authenticate generate_session_cookie logged_in_with
      invalid_credentials
  credentials random fuel s request =
      let params : Map Bytes = parse_query_params (body_start request) in
      let u : Bytes = field (bytes "username") params in
      let (s1, known) = authenticate service s u (field (bytes "password") params) in
      if known
      then logged_in_with u (generate_session_cookie service random fuel s1 u)
      else some (s1, invalid_credentials)

  unfoldable pub sign_up : S → Bool → Bytes → S × Bytes
  unfolding body_start parse_query_params field signup head_or_all http_response
  sign_up s is_head request =
      let params : Map Bytes = parse_query_params (body_start request) in
      let (s1, done) =
        signup service s (field (bytes "username") params) (field (bytes "password") params) in
      (
        s1,
        if done
            then head_or_all is_head (bytes "200 OK") (
                bytes
                  "<html><body><h1>Signed up!</h1><a href='/login.html'>Login</a></body></html>")
            else http_response (bytes "409 Conflict") (
                bytes
                  "<html><body><h1>User exists</h1><a href='/login.html'>Login</a></body></html>"),
      )

  unfoldable pub new_password : S → Bool → Bytes → S × Bytes
  unfolding body_start parse_query_params field change_password password_page
  new_password s is_head request =
      let p : Map Bytes = parse_query_params (body_start request) in
      let (s1, response) =
        change_password service s (field (bytes "username") p) (field (bytes "old_password") p)
          (field (bytes "new_password") p) in
      (s1, password_page is_head response)

  unfoldable pub logout : S → Bool → Bytes → S × Bytes
  unfolding extract_session_id get_username_from_session handle_logout head_or_all
  logout s is_head request =
      let session_id : Bytes = extract_session_id request in
      let (s1, username) = get_username_from_session service s session_id in
      (
        handle_logout service s1 session_id,
        head_or_all is_head (bytes "200 OK") (
            bytes
              "<html><body><h1>Logged out successfully!</h1><a href='/login.html'>Login</a></body></html>"),
      )

  -- The default users, up to the first whose row has no server.
  register : S → List (Bytes × Bytes) → S
  register s [] = s
  register s ((username, password) ∷ users) =
      let (s1, worker) = service.lookup s (user_row username) in
      let s2 : S = (service.write s1 worker (put (user_row username) password_column password)).0 in
      let rest : S = register s2 users in if is_err worker then s1 else rest

  unfoldable pub dummy_set_up : S → S
  unfolding register
  dummy_set_up s = register s (
      (bytes "user1", bytes "pass1")
      ∷ (bytes "user2", bytes "pass2")
      ∷ (bytes "admin", bytes "admin")
      ∷ [])
