-- ===== src/Http/Serving.antt =====
-- The answers of `client_connection`, frontend/http_server.cc, by what a request asks for.
pub mod Guarded
use penn_cloud.Prelude.{
  ℕ, zero, suc, ◌+◌, ◌-◌, Bytes, bytes, bytes_eq, Bool, true, false, Option, none, some, List, [],
  ◌∷◌, ◌++◌, ◌||◌, not, leb, if◌then◌else◌, text_of, contains, cut_text, length, to_string,
  getlines,
}
use penn_cloud.Map.{Map}
use penn_cloud.Tablet.{Tablet}
use penn_cloud.Service.{Service, is_err}
use penn_cloud.Mailbox.{is_blank}
use penn_cloud.TextServer.{cut}
use penn_cloud.Storage.Requests.{field, request_line}
use penn_cloud.Storage.Overview.{web_storage_list}
use penn_cloud.Storage.Handlers.{
  web_storage_download, web_storage_create_folder, web_storage_delete,
}
use penn_cloud.Storage.Form.{web_storage_upload}
use penn_cloud.Storage.Renames.{web_storage_rename_file, web_storage_rename_folder}
use penn_cloud.Storage.Moves.{web_storage_move_file, web_storage_move_folder}
use penn_cloud.Email.Mails.{Clock}
use penn_cloud.Email.Requests.{handle_request}
use penn_cloud.Admin.Control.{
  Servers, handle_toggle, handle_frontend_toggle, fetch_worker_statuses, home, tablet_page,
}
use penn_cloud.Admin.Tablets.{worker_page}
use penn_cloud.Http.Headers.{
  build_http_header, http_response, html, extract_session_id, read_request_body, parse_query_params,
  get_content_type, url_of, query_string, post_data,
}
use penn_cloud.Http.Sessions.{get_username_from_session}
use penn_cloud.Http.Accounts.{head_or_all, credentials, sign_up, new_password, logout}
use penn_cloud.Http.Routes.{
  Route, admin_dashboard, worker_status, admin_backend, admin_toggle, storage_list, delete_storage,
  rename_folder, rename_file, move_file, move_folder, create_folder, upload, download, email,
  delete_mail, send_mail, compose, inbox, forward, health, frontend_toggle, get_file, head_file,
  not_allowed,
}
use penn_cloud.Http.Pages.{
  unauthorized, asks_head, full_login_page, login_page, restricted, mail_refused, digit_at,
  three_pieces, get_path, head_path, missing_file, get_file_page, head_file_page, inbox_query,
}

-- What surrounds the answer to one request: what `rand`, the clock and a connection to the SMTP
-- server give, the files under a path, what further reads of the socket give, the body in chunks,
-- the order in which maps are iterated, and the rounds of the loops.
pub record Surroundings : Type 0 where
  pub random : ℕ → ℕ
  pub clock : Clock
  pub connects : Bool
  pub get_file_content : Bytes → Bytes
  pub reads : List Bytes
  pub chunked_body : Option Bytes
  pub iterate : Tablet → Tablet
  pub fuel : ℕ

-- The store, the response, and what was sent to the SMTP server.
abbrev pub Answered : Type 0 → Type 0
Answered S = Option (S × Bytes × List Bytes)

page_of : {S : Type 0} → S → Option Bytes → (Bytes → Bytes) → Answered S
page_of s none respond = none
page_of s (some body) respond = some (s, respond body, [])

done_or_not : {S : Type 0} → Option (S × Bool) → Bytes → Bytes → Answered S
done_or_not none success failure = none
done_or_not (some (s, done)) success failure = some (s, if done then success else failure, [])

unfoldable pub silent : {S : Type 0} → Option (S × Bytes) → Answered S
silent none = none
silent (some (s, page)) = some (s, page, [])

module _ {S : Type 0} (service : Service S) where
  -- What is done for the user of a session, or the response where there is none.
  unfoldable pub with_session : S → Bytes → Bytes → (S → Bytes → Answered S) → Answered S
  unfolding get_username_from_session
  with_session s session_id refused act =
      let (s1, username) = get_username_from_session service s session_id in
      elim (is_blank username) [ true ↦ some (s1, refused, []) | false ↦ act s1 username ]

  unfoldable pub with_user : S → Bytes → Bytes → (S → Bytes → Answered S) → Answered S
  unfolding extract_session_id with_session
  with_user s request refused act = with_session s (extract_session_id request) refused act

  unfoldable pub with_admin : S → Bytes → (S → Answered S) → Answered S
  unfolding with_user restricted
  with_admin s request act = with_user s request restricted λ s1 username.
      elim (bytes_eq username (bytes "admin")) [ true ↦ act s1 | false ↦ some (s1, restricted, []) ]

  -- The user's own row is looked up, but the query tells whose mailbox is meant.
  unfoldable pub email_page : Surroundings → S → Bytes → Bytes → Bytes → Bytes → Bytes → Answered S
  unfolding handle_request is_err http_response text_of
  email_page around s username path type query content =
      let (s1, worker) = service.lookup s (username ++ bytes "-email") in
      let (s2, response, sent) =
        handle_request service around.clock around.connects s1 path type query content in
      if is_err worker
      then some (
        s1,
        http_response (bytes "503 Service Unavailable")
            (bytes "<html><body>Servers down, sorry for the inconvenience!</body></html>"),
        [],
      )
      else some (
        s2,
        if is_err response
            then http_response (bytes "400 Bad Request")
                (text_of (bytes "<html><body><h1>" ∷ response ∷ bytes "</h1></body></html>" ∷ []))
            else http_response (bytes "200 OK") response,
        sent,
      )

  unfoldable pub handle_email_service :
      Surroundings → S → Bytes → Bytes → Bytes → Bytes → Bytes → Answered S
  unfolding with_session mail_refused email_page
  handle_email_service around s session_id path type query content =
      with_session s session_id mail_refused
        λ s1 username. email_page around s1 username path type query content

  -- The storage's handlers are asked for the user of the session only.
  unfoldable pub storage_answer : S → Bytes → Bytes → (S → Bytes → Option (S × Bytes)) → Answered S
  unfolding with_user silent
  storage_answer s request refused handler =
      with_user s request refused λ s1 username. silent (handler s1 username)

module _ {S : Type 0} (service : Service S) (servers : Servers S) where
  -- The number behind `worker=`, and that behind `&tablet=` where it stands; `none` is also a
  -- byte below the digits, which makes the number negative.
  unfoldable pub backend_page : Surroundings → S → Bytes → Answered S
  unfolding cut_text digit_at http_response tablet_page worker_page
  backend_page around s request = elim (cut_text (bytes "worker=") request) [
    | none ↦ none
    | some (head, after) ↦ elim (digit_at after) [
      | none ↦ none
      | some worker_id ↦ elim (cut_text (bytes "&tablet=") request) [
        | none ↦ some (s, http_response (bytes "200 OK") (worker_page worker_id), [])
        | some (other, tablet) ↦ elim (digit_at tablet) [
          | none ↦ none
          | some tablet_id ↦
              elim (tablet_page servers around.iterate around.random s worker_id tablet_id) [
                | none ↦ none
                | some (calls, page) ↦ some (s, http_response (bytes "200 OK") page, [])
              ]
        ]
      ]
    ]
  ]

  unfoldable pub toggle : Surroundings → S → Bytes → Answered S
  unfolding post_data parse_query_params field handle_toggle done_or_not http_response
  toggle around s request =
      let params : Map Bytes = parse_query_params (post_data request) in
      done_or_not
        (handle_toggle servers s (field (bytes "workerId") params) (field (bytes "action") params))
        (http_response (bytes "200 OK") [])
        (http_response (bytes "500 Internal Server Error")
          (bytes "<html><body>Something went wrong on our end!</body></html>"))

  unfoldable pub toggle_frontend : Surroundings → S → Bytes → Answered S
  unfolding read_request_body parse_query_params field handle_frontend_toggle done_or_not
      http_response
  toggle_frontend around s request = elim (read_request_body request around.reads) [
    | none ↦ none
    | some content ↦
        let params : Map Bytes = parse_query_params content in
        done_or_not
          (some (
            handle_frontend_toggle servers s (field (bytes "port") params)
              (field (bytes "action") params)))
          (http_response (bytes "200 OK") (bytes "Success"))
          (http_response (bytes "500 Internal Server Error")
            (bytes "<html><body>Failed to toggle frontend.</body></html>"))
  ]

  file_answer : S → Bytes → (Bytes → Bytes) → Answered S
  unfolding three_pieces request_line getlines
  file_answer s request respond = elim (three_pieces (getlines b' ' (request_line request))) [
    | none ↦ none
    | some target ↦ some (s, respond target, [])
  ]

  unfoldable pub mail : Surroundings → S → Bytes → Bytes → Bytes → Bytes → Bytes → Answered S
  unfolding handle_email_service extract_session_id
  mail around s request path type query content =
      handle_email_service service around s (extract_session_id request) path type query content

  -- The user of the session is asked for, also where there is none.
  unfoldable pub inbox_answer : Surroundings → S → Bytes → Answered S
  unfolding extract_session_id get_username_from_session handle_email_service inbox_query url_of
  inbox_answer around s request =
      let (s1, username) = get_username_from_session service s (extract_session_id request) in
      mail around s1 request (bytes "/inbox") (bytes "GET") (inbox_query (url_of request) username)
        []

  -- The branch that a request takes.
  unfoldable pub answer : Surroundings → S → Bytes → Route → Answered S
  unfolding silent asks_head page_of file_answer get_file_page head_file_page
  answer around s request Route.credentials =
      silent (credentials service around.random around.fuel s request)
  answer around s request Route.sign_up =
      silent (some (sign_up service s (asks_head request) request))
  answer around s request Route.new_password =
      silent (some (new_password service s (asks_head request) request))
  answer around s request Route.logout =
      silent (some (logout service s (asks_head request) request))
  answer around s request admin_dashboard =
      with_admin service s request
        λ s1. page_of s1 (home servers s1) (http_response (bytes "200 OK"))
  answer around s request worker_status =
      page_of s (fetch_worker_statuses servers s) λ json.
        build_http_header (bytes "200 OK") (bytes "application/json") (length json) [] ++ json
  answer around s request admin_backend = backend_page around s request
  answer around s request admin_toggle = with_admin service s request λ s1. toggle around s1 request
  answer around s request storage_list =
      storage_answer service s request (login_page request)
        λ s1 username. web_storage_list service s1 username request
  answer around s request delete_storage =
      storage_answer service s request (login_page request)
        λ s1 username. web_storage_delete service around.fuel s1 username request
  answer around s request rename_folder =
      storage_answer service s request (login_page request) λ s1 username.
        web_storage_rename_folder service around.fuel s1 username request around.reads
  answer around s request rename_file =
      storage_answer service s request (login_page request)
        λ s1 username. web_storage_rename_file service s1 username request around.reads
  answer around s request move_file =
      storage_answer service s request (full_login_page)
        λ s1 username. web_storage_move_file service around.fuel s1 username request around.reads
  answer around s request move_folder =
      storage_answer service s request (full_login_page)
        λ s1 username. web_storage_move_folder service around.fuel s1 username request around.reads
  answer around s request create_folder =
      storage_answer service s request (login_page request)
        λ s1 username. web_storage_create_folder service s1 username request around.reads
  answer around s request upload =
      storage_answer service s request (login_page request) λ s1 username.
        web_storage_upload service around.fuel s1 username request around.reads around.chunked_body
  answer around s request download =
      storage_answer service s request (login_page request)
        λ s1 username. web_storage_download service s1 username request
  answer around s request email =
      mail around s request (bytes "/email") (bytes "GET") (query_string request) []
  answer around s request delete_mail =
      mail around s request (bytes "/delete") (bytes "POST") (query_string request) []
  answer around s request send_mail =
      mail around s request (bytes "/send") (bytes "POST") [] (post_data request)
  answer around s request compose =
      mail around s request (bytes "/compose") (bytes "GET") (query_string request) []
  answer around s request inbox = inbox_answer around s request
  answer around s request Route.reply =
      mail around s request (bytes "/reply") (bytes "GET") (query_string request) []
  answer around s request forward =
      mail around s request (bytes "/forward") (bytes "GET") (query_string request) []
  answer around s request health =
      some (s, bytes "HTTP/1.1 200 OK\r\nContent-Length: 2\r\n\r\n", [])
  answer around s request frontend_toggle =
      with_admin service s request λ s1. toggle_frontend around s1 request
  answer around s request get_file = file_answer s request (get_file_page around.get_file_content)
  answer around s request head_file = file_answer s request (head_file_page around.get_file_content)
  answer around s request not_allowed =
      some (s, bytes "HTTP/1.1 405 Method Not Allowed\r\nConnection: keep-alive\r\n\r\n", [])
