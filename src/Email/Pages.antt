-- ===== src/Email/Pages.antt =====
-- The pages of the mail service, frontend/email/email_service.cc.
use penn_cloud.Prelude.{Bytes, bytes, List, [], ◌∷◌, ◌++◌, ◌||◌, if◌then◌else◌, text_of, getlines}
use penn_cloud.Map.{Map}
use penn_cloud.Metadata.{parse_metadata, decrypt_metadata}
use penn_cloud.Service.{is_err}
use penn_cloud.Mailbox.{is_blank}
use penn_cloud.Storage.Requests.{field}

-- `headers[name]` of the headers that the id of a mail stands for.
unfoldable pub headers_of : Bytes → Map Bytes
unfolding parse_metadata decrypt_metadata
headers_of id = parse_metadata (decrypt_metadata id)

abbrev pub header_of : Bytes → Map Bytes → Bytes
header_of name headers = field name headers

-- The tokens that are not empty.
unfoldable pub not_blank : List Bytes → List Bytes
not_blank [] = []
not_blank (token ∷ tokens) =
    let rest = not_blank tokens in if is_blank token then rest else token ∷ rest

-- The rows of the two tables, which differ in a column and in the name of the folder.
unfoldable pub inbox_row : Bytes → Bytes → Bytes
unfolding text_of headers_of field
inbox_row username id =
    let headers : Map Bytes = headers_of id in
    text_of (
      bytes "<tr><td>"
      ∷ id
      ∷ bytes "</td><td>"
      ∷ header_of (bytes "sender") headers
      ∷ bytes "</td><td>"
      ∷ header_of (bytes "subject") headers
      ∷ bytes "</td><td>"
      ∷ header_of (bytes "timestamp") headers
      ∷ bytes "</td><td>"
      ∷ bytes "<a href='/email?id="
      ∷ id
      ∷ bytes "&folder=inbox&username="
      ∷ username
      ∷ bytes "'>View</a> | "
      ∷ bytes "<a href='/delete?id="
      ∷ id
      ∷ bytes "&folder=inbox&username="
      ∷ username
      ∷ bytes "'>Delete</a>"
      ∷ bytes "</td></tr>"
      ∷ [])

unfoldable pub sent_row : Bytes → Bytes → Bytes
unfolding text_of headers_of field
sent_row username id =
    let headers : Map Bytes = headers_of id in
    text_of (
      bytes "<tr><td>"
      ∷ id
      ∷ bytes "</td><td>"
      ∷ header_of (bytes "recipient") headers
      ∷ bytes "</td><td>"
      ∷ header_of (bytes "subject") headers
      ∷ bytes "</td><td>"
      ∷ header_of (bytes "timestamp") headers
      ∷ bytes "</td><td>"
      ∷ bytes "<a href='/email?id="
      ∷ id
      ∷ bytes "&folder=sent&username="
      ∷ username
      ∷ bytes "'>View</a> | "
      ∷ bytes "<a href='/delete?id="
      ∷ id
      ∷ bytes "&folder=sent&username="
      ∷ username
      ∷ bytes "'>Delete</a>"
      ∷ bytes "</td></tr>"
      ∷ [])

unfoldable pub inbox_rows : Bytes → List Bytes → Bytes
unfolding inbox_row
inbox_rows username [] = []
inbox_rows username (id ∷ ids) = inbox_row username id ++ inbox_rows username ids

unfoldable pub sent_rows : Bytes → List Bytes → Bytes
unfolding sent_row
sent_rows username [] = []
sent_rows username (id ∷ ids) = sent_row username id ++ sent_rows username ids

-- The part of the page for what Get returned for the list of the inbox.
unfoldable pub inbox_section : Bytes → Bytes → Bytes
unfolding text_of not_blank inbox_rows is_err getlines
inbox_section username meta_list =
    if is_err meta_list || is_blank meta_list
    then bytes "<p>No received emails found.</p>"
    else text_of (
        bytes
          "<table border='1'><tr><th>Email ID</th><th>From</th><th>Subject</th><th>Date</th><th>Actions</th></tr>"
        ∷ inbox_rows username (not_blank (getlines b',' meta_list))
        ∷ bytes "</table>"
        ∷ [])

unfoldable pub sent_section : Bytes → Bytes → Bytes
unfolding text_of not_blank sent_rows is_err getlines
sent_section username sent_meta =
    if is_err sent_meta || is_blank sent_meta
    then bytes "<p>No sent emails found.</p>"
    else text_of (
        bytes
          "<table border='1'><tr><th>Email ID</th><th>To</th><th>Subject</th><th>Date</th><th>Actions</th></tr>"
        ∷ sent_rows username (not_blank (getlines b',' sent_meta))
        ∷ bytes "</table>"
        ∷ [])

unfoldable pub inbox_page : Bytes → Bytes → Bytes → Bytes
unfolding text_of inbox_section sent_section
inbox_page username meta_list sent_meta = text_of (
    bytes "<html><head><title>Inbox</title>"
    ∷ bytes "<style>"
    ∷ bytes "body { font-family: Arial, sans-serif; background: #f4f4f4; padding: 20px; }"
    ∷ bytes "h1, h2 { color: #333; }"
    ∷ bytes
        "table { border-collapse: collapse; width: 100%; margin-bottom: 40px; background: #fff; box-shadow: 0 0 10px rgba(0,0,0,0.05); }"
    ∷ bytes "th, td { padding: 12px 15px; border: 1px solid #ddd; }"
    ∷ bytes "th { background-color: #007BFF; color: white; }"
    ∷ bytes "tr:hover { background-color: #f1f1f1; }"
    ∷ bytes "a { text-decoration: none; color: #007BFF; }"
    ∷ bytes "a:hover { text-decoration: underline; }"
    ∷ bytes
        ".compose-btn { padding: 10px 20px; background: #28a745; color: white; border-radius: 5px; font-weight: bold; text-decoration: none; }"
    ∷ bytes ".compose-btn:hover { background: #218838; }"
    ∷ bytes "</style></head><body>"
    ∷ bytes "<h1>Welcome, "
    ∷ username
    ∷ bytes "</h1>"
    ∷ bytes "<h2>Inbox</h2>"
    ∷ inbox_section username meta_list
    ∷ bytes "<h2>Sent Emails</h2>"
    ∷ sent_section username sent_meta
    ∷ bytes "<br/><a href='/compose?username="
    ∷ username
    ∷ bytes "'>Compose New Email</a></body></html>"
    ∷ [])

unfoldable pub mail_missing : Bytes
mail_missing =
    bytes "<html><body><h1>Error:</h1><p>Email not found or failed to load.</p></body></html>"

unfoldable pub mail_page : Bytes → Bytes → Bytes → Bytes → Bytes
unfolding text_of headers_of field
mail_page username id folder body =
    let headers : Map Bytes = headers_of id in
    text_of (
      bytes "<html><head><title>Email Details</title>"
      ∷ bytes "<style>"
      ∷ bytes "body { font-family: Arial; background: #f4f4f4; padding: 20px; }"
      ∷ bytes "h1, h2 { color: #333; }"
      ∷ bytes "p { line-height: 1.6; }"
      ∷ bytes "a { color: #007BFF; text-decoration: none; }"
      ∷ bytes "a:hover { text-decoration: underline; }"
      ∷ bytes
          ".back-btn { margin-top: 20px; display: inline-block; padding: 10px 20px; background: #007BFF; color: white; border-radius: 5px; text-decoration: none; }"
      ∷ bytes ".back-btn:hover { background: #0056b3; }"
      ∷ bytes "</style></head><body>"
      ∷ bytes "<h1>Email Details ("
      ∷ folder
      ∷ bytes ")</h1>"
      ∷ bytes "<p><strong>From:</strong> "
      ∷ header_of (bytes "sender") headers
      ∷ bytes "</p>"
      ∷ bytes "<p><strong>To:</strong> "
      ∷ header_of (bytes "recipient") headers
      ∷ bytes "</p>"
      ∷ bytes "<p><strong>Subject:</strong> "
      ∷ header_of (bytes "subject") headers
      ∷ bytes "</p>"
      ∷ bytes "<p><strong>Date:</strong> "
      ∷ header_of (bytes "timestamp") headers
      ∷ bytes "</p>"
      ∷ bytes
          "<p><strong>Body:</strong><br><div style='background:#fff;padding:15px;border:1px solid #ccc;'>"
      ∷ body
      ∷ bytes "</div></p>"
      ∷ bytes "<p><a href='/reply?username="
      ∷ username
      ∷ bytes "&id="
      ∷ id
      ∷ bytes "&folder="
      ∷ folder
      ∷ bytes "'>Reply</a> | "
      ∷ bytes "<a href='/forward?username="
      ∷ username
      ∷ bytes "&id="
      ∷ id
      ∷ bytes "&folder="
      ∷ folder
      ∷ bytes "'>Forward</a></p>"
      ∷ bytes "<a class='back-btn' href='/inbox?username="
      ∷ username
      ∷ bytes "&folder="
      ∷ folder
      ∷ bytes "'>Back to Inbox</a>"
      ∷ bytes "</body></html>"
      ∷ [])
