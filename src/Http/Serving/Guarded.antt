-- ===== src/Http/Serving/Guarded.antt =====
-- What is refused to whoever is not logged in.
use penn_cloud.Prelude.{
  Bytes, bytes, bytes_eq, ◌≡◌, refl, ap, ◌∙◌, Bool, true, false, Option, some, [],
}
use penn_cloud.KeyValue.{KeyValue}
use penn_cloud.Service.{Service, Serves}
use penn_cloud.Admin.Control.{Servers}
use penn_cloud.Http.Headers.{extract_session_id}
use penn_cloud.Http.Sessions.{session_row, get_username_from_session}
use penn_cloud.Http.Sessions.Logins.{user_in, get_username-user_in}
use penn_cloud.Http.Routes.{
  Route, worker_status, admin_backend, health, get_file, head_file, not_allowed, admin_dashboard,
  admin_toggle, storage_list, delete_storage, rename_folder, rename_file, move_file, move_folder,
  create_folder, upload, download, email, delete_mail, send_mail, compose, inbox, forward,
  frontend_toggle,
}
use penn_cloud.Http.Serving.{
  Surroundings, Answered, answer, with_session, with_user, with_admin, storage_answer,
  handle_email_service, email_page, silent, mail, inbox_answer,
}
use penn_cloud.Http.Pages.{restricted, mail_refused, login_page, full_login_page}

-- The routes that need a session.
abbrev pub needs_session : Route → Bool
needs_session Route.credentials = false
needs_session Route.sign_up = false
needs_session Route.new_password = false
needs_session Route.logout = false
needs_session worker_status = false
needs_session admin_backend = false
needs_session health = false
needs_session get_file = false
needs_session head_file = false
needs_session not_allowed = false
needs_session _ = true

-- The routes that need the administrator.
abbrev pub needs_admin : Route → Bool
needs_admin admin_dashboard = true
needs_admin admin_toggle = true
needs_admin frontend_toggle = true
needs_admin _ = false

-- How they refuse a request without one.
abbrev pub refusal : Bytes → Route → Bytes
refusal request admin_dashboard = restricted
refusal request admin_toggle = restricted
refusal request frontend_toggle = restricted
refusal request email = mail_refused
refusal request delete_mail = mail_refused
refusal request send_mail = mail_refused
refusal request compose = mail_refused
refusal request inbox = mail_refused
refusal request Route.reply = mail_refused
refusal request forward = mail_refused
refusal request move_file = full_login_page
refusal request move_folder = full_login_page
refusal request _ = login_page request

module _ {S : Type 0} (service : Service S) (servers : Servers S) (Shows : S → KeyValue → Type 0)
    (At : S → Bytes → Bytes → Type 0) (serves : Serves service Shows At) where
  -- The answer is a page, nothing was sent and the store shows the map.
  pub record Refused (answered : Answered S) (f : KeyValue) (page : Bytes) : Type 0 where
    pub store : S
    pub shows : Shows store f
    pub answered_with : answered ≡ some (store, page, [])

  with_session-Refused :
      (s : S) (f : KeyValue) (sid refused : Bytes) (act : S → Bytes → Answered S)
      → Shows s f
      → user_in (f session_row sid) ≡ []
      → Refused (with_session service s sid refused act) f refused
  unfolding with_session bytes_eq
  with_session-Refused s f sid refused act shows nobody =
      let (user, after) = get_username-user_in service Shows At serves s f sid shows in
      record { store = _; shows = after; answered_with = rw (user ∙ nobody, with_session) refl }

  storage_answer-Refused :
      (s : S) (f : KeyValue) (request refused : Bytes) (handler : S → Bytes → Option (S × Bytes))
      → Shows s f
      → user_in (f session_row (extract_session_id request)) ≡ []
      → Refused (storage_answer service s request refused handler) f refused
  unfolding storage_answer with_user
  storage_answer-Refused s f request refused handler shows nobody =
      with_session-Refused s f (extract_session_id request) refused
        (λ s1 username. silent (handler s1 username)) shows nobody

  with_admin-Refused :
      (s : S) (f : KeyValue) (request : Bytes) (act : S → Answered S)
      → Shows s f
      → user_in (f session_row (extract_session_id request)) ≡ []
      → Refused (with_admin service s request act) f restricted
  unfolding with_admin with_user
  with_admin-Refused s f request act shows nobody =
      with_session-Refused s f (extract_session_id request) restricted
        (λ s1 username. elim (bytes_eq username (bytes "admin")) [
          | true ↦ act s1
          | false ↦ some (s1, restricted, [])
        ])
        shows nobody

  handle_email_service-Refused :
      (around : Surroundings) (s : S) (f : KeyValue) (sid path type query content : Bytes)
      → Shows s f
      → user_in (f session_row sid) ≡ []
      → Refused (handle_email_service service around s sid path type query content) f mail_refused
  unfolding handle_email_service
  handle_email_service-Refused around s f sid path type query content shows nobody =
      with_session-Refused s f sid mail_refused
        (λ s1 username. email_page service around s1 username path type query content) shows nobody

  mail-Refused :
      (around : Surroundings) (s : S) (f : KeyValue) (request path type query content : Bytes)
      → Shows s f
      → user_in (f session_row (extract_session_id request)) ≡ []
      → Refused (mail service servers around s request path type query content) f mail_refused
  unfolding mail
  mail-Refused around s f request path type query content shows nobody =
      handle_email_service-Refused around s f (extract_session_id request) path type query content
        shows nobody

  inbox_answer-Refused :
      (around : Surroundings) (s : S) (f : KeyValue) (request : Bytes)
      → Shows s f
      → user_in (f session_row (extract_session_id request)) ≡ []
      → Refused (inbox_answer service servers around s request) f mail_refused
  unfolding inbox_answer
  inbox_answer-Refused around s f request shows nobody =
      mail-Refused around _ f request _ _ _ _
        (get_username-user_in service Shows At serves s f (extract_session_id request) shows).1
        nobody

  -- On a store that serves a map, a request whose cookie names no session is refused on every route
  -- of the storage and of mails, and on the dashboard and the switches of the administration: the
  -- answer is the page of status 401, the map stays as it is and no mail is sent. The pages of the
  -- workers' states and of tablets are not among these routes.
  pub answer-Refused :
      (around : Surroundings) (s : S) (f : KeyValue) (request : Bytes) (route : Route)
      → Shows s f
      → user_in (f session_row (extract_session_id request)) ≡ []
      → needs_session route ≡ true
      → Refused (answer service servers around s request route) f (refusal request route)
  unfolding answer
  answer-Refused around s f request storage_list shows nobody e =
      storage_answer-Refused s f request _ _ shows nobody
  answer-Refused around s f request delete_storage shows nobody e =
      storage_answer-Refused s f request _ _ shows nobody
  answer-Refused around s f request rename_folder shows nobody e =
      storage_answer-Refused s f request _ _ shows nobody
  answer-Refused around s f request rename_file shows nobody e =
      storage_answer-Refused s f request _ _ shows nobody
  answer-Refused around s f request move_file shows nobody e =
      storage_answer-Refused s f request _ _ shows nobody
  answer-Refused around s f request move_folder shows nobody e =
      storage_answer-Refused s f request _ _ shows nobody
  answer-Refused around s f request create_folder shows nobody e =
      storage_answer-Refused s f request _ _ shows nobody
  answer-Refused around s f request upload shows nobody e =
      storage_answer-Refused s f request _ _ shows nobody
  answer-Refused around s f request download shows nobody e =
      storage_answer-Refused s f request _ _ shows nobody
  answer-Refused around s f request admin_dashboard shows nobody e =
      with_admin-Refused s f request _ shows nobody
  answer-Refused around s f request admin_toggle shows nobody e =
      with_admin-Refused s f request _ shows nobody
  answer-Refused around s f request frontend_toggle shows nobody e =
      with_admin-Refused s f request _ shows nobody
  answer-Refused around s f request email shows nobody e =
      mail-Refused around s f request _ _ _ _ shows nobody
  answer-Refused around s f request delete_mail shows nobody e =
      mail-Refused around s f request _ _ _ _ shows nobody
  answer-Refused around s f request send_mail shows nobody e =
      mail-Refused around s f request _ _ _ _ shows nobody
  answer-Refused around s f request compose shows nobody e =
      mail-Refused around s f request _ _ _ _ shows nobody
  answer-Refused around s f request Route.reply shows nobody e =
      mail-Refused around s f request _ _ _ _ shows nobody
  answer-Refused around s f request forward shows nobody e =
      mail-Refused around s f request _ _ _ _ shows nobody
  answer-Refused around s f request inbox shows nobody e =
      inbox_answer-Refused around s f request shows nobody
  answer-Refused around s f request Route.credentials shows nobody e = cc
  answer-Refused around s f request Route.sign_up shows nobody e = cc
  answer-Refused around s f request Route.new_password shows nobody e = cc
  answer-Refused around s f request Route.logout shows nobody e = cc
  answer-Refused around s f request worker_status shows nobody e = cc
  answer-Refused around s f request admin_backend shows nobody e = cc
  answer-Refused around s f request health shows nobody e = cc
  answer-Refused around s f request get_file shows nobody e = cc
  answer-Refused around s f request head_file shows nobody e = cc
  answer-Refused around s f request not_allowed shows nobody e = cc

  -- Either test leads to the same answer.
  two_tests :
      (blank admin : Bool) (answered refused : Answered S)
      → admin ≡ false
      → elim blank [ true ↦ refused | false ↦ elim admin [ true ↦ answered | false ↦ refused ] ]
        ≡ refused
  two_tests true admin answered refused e = refl
  two_tests false admin answered refused e = rw e refl

  with_admin-not_admin :
      (s : S) (f : KeyValue) (request : Bytes) (act : S → Answered S)
      → Shows s f
      → bytes_eq (user_in (f session_row (extract_session_id request))) (bytes "admin") ≡ false
      → Refused (with_admin service s request act) f restricted
  unfolding with_admin with_user with_session
  with_admin-not_admin s f request act shows other =
      let (user, after) =
        get_username-user_in service Shows At serves s f (extract_session_id request) shows in
      let not_admin : bytes_eq (get_username_from_session service s (extract_session_id request)).1
            (bytes "admin")
          ≡ false =
        ap (λ name. bytes_eq name (bytes "admin")) user ∙ other in
      record { store = _; shows = after; answered_with = two_tests _ _ _ _ not_admin }

  -- On a store that serves a map, the dashboard and the two switches of the administration are
  -- refused to every session whose user is not admin, and to requests without a session: the answer
  -- is the page of status 401, and the map stays as it is.
  pub answer-not_admin :
      (around : Surroundings) (s : S) (f : KeyValue) (request : Bytes) (route : Route)
      → Shows s f
      → bytes_eq (user_in (f session_row (extract_session_id request))) (bytes "admin") ≡ false
      → needs_admin route ≡ true
      → Refused (answer service servers around s request route) f restricted
  unfolding answer
  answer-not_admin around s f request admin_dashboard shows other e =
      with_admin-not_admin s f request _ shows other
  answer-not_admin around s f request admin_toggle shows other e =
      with_admin-not_admin s f request _ shows other
  answer-not_admin around s f request frontend_toggle shows other e =
      with_admin-not_admin s f request _ shows other
  answer-not_admin around s f request Route.credentials shows other e = cc
  answer-not_admin around s f request Route.sign_up shows other e = cc
  answer-not_admin around s f request Route.new_password shows other e = cc
  answer-not_admin around s f request Route.logout shows other e = cc
  answer-not_admin around s f request worker_status shows other e = cc
  answer-not_admin around s f request admin_backend shows other e = cc
  answer-not_admin around s f request health shows other e = cc
  answer-not_admin around s f request get_file shows other e = cc
  answer-not_admin around s f request head_file shows other e = cc
  answer-not_admin around s f request not_allowed shows other e = cc
  answer-not_admin around s f request storage_list shows other e = cc
  answer-not_admin around s f request delete_storage shows other e = cc
  answer-not_admin around s f request rename_folder shows other e = cc
  answer-not_admin around s f request rename_file shows other e = cc
  answer-not_admin around s f request move_file shows other e = cc
  answer-not_admin around s f request move_folder shows other e = cc
  answer-not_admin around s f request create_folder shows other e = cc
  answer-not_admin around s f request upload shows other e = cc
  answer-not_admin around s f request download shows other e = cc
  answer-not_admin around s f request email shows other e = cc
  answer-not_admin around s f request delete_mail shows other e = cc
  answer-not_admin around s f request send_mail shows other e = cc
  answer-not_admin around s f request compose shows other e = cc
  answer-not_admin around s f request inbox shows other e = cc
  answer-not_admin around s f request Route.reply shows other e = cc
  answer-not_admin around s f request forward shows other e = cc
