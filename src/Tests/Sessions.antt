-- ===== src/Tests/Sessions.antt =====
-- Sessions, requests and the administration, on a single node as the store.
use penn_cloud.Prelude.{
  ℕ, Bytes, bytes, bytes_eq, ◌≡◌, refl, true, false, none, some, [], ◌∷◌, ◌++◌, arith, inl,
  if◌then◌else◌, to_string, length, contains, update, cut_text, ◌+◌, ◌≤◌,
}
use Prim.Native.Nat.{max}
use penn_cloud.Map.{lookup, insert}
use penn_cloud.Tablet
use penn_cloud.Tablet.{Tablet, cell}
use penn_cloud.KeyValue.{KeyValue}
use penn_cloud.Service.{Serves, is_err}
use penn_cloud.SingleNode.Serving.{Shows}
use penn_cloud.Tests.SingleHost.{service, At, service-Serves}
use penn_cloud.Account.{user_row, password_column}
use penn_cloud.Account.Logins.{accepts}
use penn_cloud.Worker.{init}
use penn_cloud.Cluster.{Cluster, start}
use penn_cloud.Placement.Hosts.{IsNode}
use penn_cloud.Admin.Control.{Servers, handle_toggle}
use penn_cloud.Admin.Control.Toggled.{cluster_servers, handle_toggle-worker_up}
use penn_cloud.Storage.Requests.{field, body_start}
use penn_cloud.Http.Headers.{
  parse_query_params, extract_session_id, read_request_body, max_body_size,
}
use penn_cloud.Http.Headers.Bounds.{read_size, read_request_body-bound}
use penn_cloud.Http.Sessions.{session_row, active_column, get_username_from_session, handle_logout}
use penn_cloud.Http.Sessions.Logins.{user_in, handle_logout-user_in}
use penn_cloud.Http.Sessions.Cookies.{extract_session_id-to_string}
use penn_cloud.Http.Accounts.{credentials, logged_in, invalid_credentials}
use penn_cloud.Http.Accounts.Entry.{form_field, credentials-user_in, credentials-refused}
use penn_cloud.Http.Routes.{upload, admin_toggle}
use penn_cloud.Http.Serving.{Surroundings, answer}
use penn_cloud.Http.Pages.{restricted}
use penn_cloud.Http.Serving.Guarded.{Refused, refusal, answer-Refused, answer-not_admin}

abbrev host : Bytes
host = bytes "127.0.0.1:50051"

host-not_err : is_err host ≡ false
unfolding is_err bytes_eq
host-not_err = refl

node-Serves : Serves (service host) Shows At
node-Serves = service-Serves host host-not_err

abbrev empty : KeyValue
empty r c = none

empty-Shows : Shows [] empty
unfolding cell lookup
empty-Shows r c = refl

-- A store with one user, who has a session.
abbrev one_session : Tablet
one_session =
    Tablet.put session_row (bytes "7") (bytes "ann")
      (Tablet.put (user_row (bytes "ann")) password_column (bytes "pw") [])

abbrev one_session_map : KeyValue
one_session_map r c = cell r c one_session

not_active : bytes_eq (bytes "7") active_column ≡ false
unfolding bytes_eq
not_active = refl

handle_logout-user_in_example :
    (get_username_from_session
      (service host)
      (handle_logout (service host) one_session (bytes "7"))
      (bytes "7")).1
    ≡ (if bytes_eq (bytes "7") (bytes "7")
        then []
        else user_in (one_session_map session_row (bytes "7")))
handle_logout-user_in_example =
    handle_logout-user_in (service host) Shows At node-Serves one_session one_session_map
      (bytes "7") (bytes "7") (λ r c. refl) not_active

-- A request up to its cookies.
abbrev request_head : Bytes
request_head = bytes "GET /storage HTTP/1.1\r\nConnection: keep-alive\r\n"

no_cookie : contains (bytes "Cookie:") request_head ≡ false
unfolding contains cut_text bytes_eq
no_cookie = refl

extract_session_id-to_string_example :
    extract_session_id (
      request_head
      ++ (bytes "Cookie:"
          ++ (bytes " " ++ (bytes "session_id=" ++ (to_string 7 ++ b';' ∷ bytes " a=b\r\n")))))
    ≡ to_string 7
extract_session_id-to_string_example =
    extract_session_id-to_string request_head (bytes " ") (bytes " a=b\r\n") b';' 7 no_cookie
      (refl, tt) (inl refl)

abbrev login_form : Bytes
login_form = bytes "POST /credentials HTTP/1.1\r\n\r\nusername=ann&password=pw"

abbrev wrong_form : Bytes
wrong_form = bytes "POST /credentials HTTP/1.1\r\n\r\nusername=ann&password=no"

login_form-accepts :
    accepts
      (one_session_map (user_row (form_field (bytes "username") login_form)) password_column)
      (form_field (bytes "password") login_form)
    ≡ true
unfolding cell lookup insert bytes_eq Tablet.put Tablet.row_of is_err cut_text field
    parse_query_params body_start
login_form-accepts = refl

wrong_form-accepts :
    accepts
      (one_session_map (user_row (form_field (bytes "username") wrong_form)) password_column)
      (form_field (bytes "password") wrong_form)
    ≡ false
unfolding cell lookup insert bytes_eq Tablet.put Tablet.row_of is_err cut_text field
    parse_query_params body_start
wrong_form-accepts = refl

login_form-not_err : is_err (form_field (bytes "username") login_form) ≡ false
unfolding is_err bytes_eq cut_text field parse_query_params body_start
login_form-not_err = refl

-- `rand` gives 7, which names a session, and then 8.
abbrev random : ℕ → ℕ
random k = 7 + k

free_number : one_session_map session_row (to_string (random 1)) ≡ none
unfolding cell lookup insert bytes_eq Tablet.put Tablet.row_of to_string
free_number = refl

credentials-user_in_example :
    let u = form_field (bytes "username") login_form in
    (s1 : Tablet) × (n : ℕ) × (credentials (service host) random 2 one_session login_form
      ≡ some (s1, logged_in u (to_string n)))
    × (user_in (one_session_map session_row (to_string n)) ≡ [])
    × ((get_username_from_session (service host) s1 (bytes "7")).1 ≡ (
        if bytes_eq (to_string n) (bytes "7")
        then u
        else user_in (one_session_map session_row (bytes "7"))))
credentials-user_in_example =
    credentials-user_in (service host) Shows At node-Serves random 2 1 one_session one_session_map
      login_form (bytes "7") (λ r c. refl) login_form-accepts login_form-not_err (omega arith)
      free_number not_active

credentials-refused_example :
    (s1 : Tablet) × (credentials (service host) random 2 one_session wrong_form
      ≡ some (s1, invalid_credentials))
    × Shows s1 one_session_map
credentials-refused_example =
    credentials-refused (service host) Shows At node-Serves random 2 one_session one_session_map
      wrong_form (λ r c. refl) wrong_form-accepts

-- No server can be reached by the administration.
abbrev no_servers : Servers Tablet
no_servers = record {
  alive = λ t id. bytes "Dead";
  admin_console = λ t id password command. some (t, bytes "ERR");
  copy_tablet = λ t id tablet. bytes "ERR";
  health = λ t. bytes "false";
  system = λ t cmd. (t, 1);
}

abbrev around : Surroundings
around = record {
  random = random;
  clock = record { timestamp = bytes "2025-05-01 12:00:00"; date = bytes "Thu" };
  connects = false;
  get_file_content = λ path. [];
  reads = [];
  chunked_body = none;
  iterate = λ t. t;
  fuel = 2;
}

-- A request with a cookie of no session, and one of the user's session.
abbrev stranger : Bytes
stranger = bytes "POST /upload HTTP/1.1\r\nCookie: session_id=9\r\n\r\n"

abbrev switch : Bytes
switch =
    bytes "POST /admin/toggle HTTP/1.1\r\nCookie: session_id=7\r\n\r\nworkerId=1&action=shutdown"

stranger-nobody : user_in (one_session_map session_row (extract_session_id stranger)) ≡ []
unfolding cell lookup insert bytes_eq Tablet.put Tablet.row_of extract_session_id cut_text
stranger-nobody = refl

switch-not_admin :
    bytes_eq (user_in (one_session_map session_row (extract_session_id switch))) (bytes "admin")
    ≡ false
unfolding cell lookup insert bytes_eq Tablet.put Tablet.row_of extract_session_id cut_text is_err
switch-not_admin = refl

answer-Refused_example :
    Refused
      (service host)
      no_servers
      Shows
      At
      node-Serves
      (answer (service host) no_servers around one_session stranger upload)
      one_session_map
      (refusal stranger upload)
answer-Refused_example =
    answer-Refused (service host) no_servers Shows At node-Serves around one_session one_session_map
      stranger upload (λ r c. refl) stranger-nobody refl

answer-not_admin_example :
    Refused
      (service host)
      no_servers
      Shows
      At
      node-Serves
      (answer (service host) no_servers around one_session switch admin_toggle)
      one_session_map
      restricted
answer-not_admin_example =
    answer-not_admin (service host) no_servers Shows At node-Serves around one_session
      one_session_map switch admin_toggle (λ r c. refl) switch-not_admin refl

abbrev big_upload : Bytes
big_upload = bytes "POST /x HTTP/1.1\r\nContent-Length: 5\r\n\r\nab"

big_upload-read : read_request_body big_upload (bytes "cde" ∷ []) ≡ some (bytes "abcde")
unfolding read_request_body cut_text bytes_eq
big_upload-read = refl

read_request_body-bound_example :
    length (bytes "abcde") ≤ max (length big_upload) (max_body_size + read_size)
read_request_body-bound_example =
    read_request_body-bound big_upload (bytes "abcde") (bytes "cde" ∷ []) (omega arith, tt)
      big_upload-read

abbrev no_copy : ℕ → ℕ → Bytes
no_copy id tablet = []

abbrev servers : Servers Cluster
servers =
    cluster_servers no_copy [] (λ c id. bytes "Alive") (λ c id tablet. bytes "ERR")
      (λ c. bytes "false") (λ c cmd. (c, 1))

third-IsNode : IsNode 3
third-IsNode = record { low = omega arith; high = omega arith }

start-worker_up : (start 3).worker_up ≡ true
unfolding init
start-worker_up = refl

handle_toggle-worker_up_example :
    (handle_toggle servers start (to_string 3) (bytes "shutdown")
      ≡ some (update start 3 (record (start 3) { worker_up = false }), true))
    × (handle_toggle servers start (to_string 3) (bytes "restart")
        ≡ some (update start 3 (start 3), true))
handle_toggle-worker_up_example =
    handle_toggle-worker_up no_copy [] (λ c id. bytes "Alive") (λ c id tablet. bytes "ERR")
      (λ c. bytes "false") (λ c cmd. (c, 1)) start 3 third-IsNode start-worker_up
