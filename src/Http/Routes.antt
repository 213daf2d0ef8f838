-- ===== src/Http/Routes.antt =====
-- What a request asks for: the tests of `client_connection` in frontend/http_server.cc, in their
-- order. Most of them look for the words anywhere in the request, also in its body.
use penn_cloud.Prelude.{Bytes, bytes, not, ◌||◌, ◌&&◌, if◌then◌else◌, contains, begins}

pub data Route : Type 0 where
  credentials : Route
  sign_up : Route
  new_password : Route
  logout : Route
  admin_dashboard : Route
  worker_status : Route
  admin_backend : Route
  admin_toggle : Route
  storage_list : Route
  delete_storage : Route
  rename_folder : Route
  rename_file : Route
  move_file : Route
  move_folder : Route
  create_folder : Route
  upload : Route
  download : Route
  email : Route
  delete_mail : Route
  send_mail : Route
  compose : Route
  inbox : Route
  reply : Route
  forward : Route
  health : Route
  frontend_toggle : Route
  get_file : Route
  head_file : Route
  not_allowed : Route

-- The routes behind those of the storage.
mail_route : Bytes → Route
unfolding contains
mail_route request =
    if contains (bytes "GET /email") request && not (contains (bytes "GET /email.html") request)
    then email
    else if contains (bytes "/delete") request
    then delete_mail
    else if contains (bytes "POST /send") request
    then send_mail
    else if contains (bytes "GET /compose") request
    then compose
    else if contains (bytes "/inbox") request || contains (bytes "/email.html") request
    then inbox
    else if contains (bytes "GET /reply") request
    then reply
    else if contains (bytes "GET /forward") request
    then forward
    else if contains (bytes "HEAD /health") request
    then health
    else if contains (bytes "POST /admin/frontend-toggle") request
    then frontend_toggle
    else if contains (bytes "GET") request
    then get_file
    else if contains (bytes "HEAD") request
    then head_file
    else not_allowed

-- The routes of the storage. Some ask for their words at the beginning of the request.
storage_route : Bytes → Route
unfolding contains begins mail_route
storage_route request =
    if contains (bytes "GET /storage") request || contains (bytes "GET /list") request
    then storage_list
    else if begins (bytes "GET /deleteStorage") request
        || begins (bytes "HEAD /deleteStorage") request
    then delete_storage
    else if begins (bytes "GET /renameFolder") request
        || (begins (bytes "POST /renameFolder") request
            || begins (bytes "HEAD /renameFolder") request)
    then rename_folder
    else if begins (bytes "GET /rename") request
        || (begins (bytes "POST /rename") request || begins (bytes "HEAD /rename") request)
    then rename_file
    else if begins (bytes "POST /moveFile") request || begins (bytes "GET /moveFile") request
    then move_file
    else if begins (bytes "POST /moveFolder") request || begins (bytes "GET /moveFolder") request
    then move_folder
    else if contains (bytes "POST /createSubFolder") request
        || contains (bytes "HEAD /createSubFolder") request
    then create_folder
    else if contains (bytes "POST /upload") request || contains (bytes "HEAD /upload") request
    then upload
    else if contains (bytes "GET /download") request || contains (bytes "HEAD /download") request
    then download
    else mail_route request

unfoldable pub route_of : Bytes → Route
unfolding contains storage_route
route_of request =
    if contains (bytes "POST /credentials") request || contains (bytes "HEAD /credentials") request
    then credentials
    else if contains (bytes "POST /signup") request || contains (bytes "HEAD /signup") request
    then sign_up
    else if contains (bytes "POST /changepassword") request
        || contains (bytes "HEAD /changepassword") request
    then new_password
    else if contains (bytes "GET /logout") request || contains (bytes "HEAD /logout") request
    then logout
    else if contains (bytes "GET /admin/dashboard") request
    then admin_dashboard
    else if contains (bytes "GET /admin/worker-status") request
    then worker_status
    else if contains (bytes "GET /admin/backend?worker=") request
    then admin_backend
    else if contains (bytes "POST /admin/toggle") request
    then admin_toggle
    else storage_route request
