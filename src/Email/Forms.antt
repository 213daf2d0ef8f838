-- ===== src/Email/Forms.antt =====
-- The forms of the mail service and the page after sending, frontend/email/email_service.cc.
use penn_cloud.Prelude.{Bytes, bytes, Bool, [], ◌∷◌, ◌++◌, if◌then◌else◌, text_of, begins}
use penn_cloud.Map.{Map}
use penn_cloud.Service.{is_err}
use penn_cloud.Storage.Requests.{field}
use penn_cloud.Email.Pages.{headers_of, header_of}

-- `renderCompose`
unfoldable pub render_compose : Bytes → Bytes
unfolding text_of
render_compose username = text_of (
    bytes "<html><head><title>Compose Email</title>"
    ∷ bytes "<style>"
    ∷ bytes "body { font-family: Arial; background: #f4f4f4; padding: 20px; }"
    ∷ bytes
        "form { background: #fff; padding: 20px; border-radius: 5px; box-shadow: 0 0 5px rgba(0,0,0,0.1); }"
    ∷ bytes
        "input[type=text], textarea { width: 100%; padding: 10px; margin-bottom: 15px; border: 1px solid #ccc; border-radius: 4px; }"
    ∷ bytes
        "input[type=submit] { background: #28a745; color: white; padding: 10px 20px; border: none; border-radius: 4px; cursor: pointer; }"
    ∷ bytes "input[type=submit]:hover { background: #218838; }"
    ∷ bytes ".back-link { margin-top: 20px; display: inline-block; color: #007BFF; }"
    ∷ bytes "</style></head><body>"
    ∷ bytes "<h1>Compose New Email</h1>"
    ∷ bytes "<form method='POST' action='/send'>"
    ∷ bytes "To: <input type='text' name='to'><br>"
    ∷ bytes "Subject: <input type='text' name='subject'><br>"
    ∷ bytes "Body:<br><textarea name='body' rows='10' cols='30'></textarea><br>"
    ∷ bytes "<input type='hidden' name='username' value='"
    ∷ username
    ∷ bytes "'>"
    ∷ bytes "<input type='submit' value='Send'>"
    ∷ bytes "</form>"
    ∷ bytes "<a class='back-link' href='/inbox?username="
    ∷ username
    ∷ bytes "'>Back to Inbox</a>"
    ∷ bytes "</body></html>"
    ∷ [])

-- `subject.find(prefix) == 0`
unfoldable pub prefixed : Bytes → Bytes → Bytes
unfolding begins
prefixed prefix subject = if begins prefix subject then subject else prefix ++ (b' ' ∷ subject)

-- The form of an answer, by what Get returned for the mail.
unfoldable pub reply_page : Bytes → Bytes → Bytes → Bytes
unfolding text_of headers_of field prefixed is_err
reply_page username id stored =
    let headers : Map Bytes = headers_of id in
    let original : Bytes =
      if is_err stored then bytes "[Original message not available]" else stored in
    let reply_to : Bytes = header_of (bytes "sender") headers in
    let subject : Bytes = header_of (bytes "subject") headers in
    let reply_subject : Bytes = prefixed (bytes "Re:") subject in
    let quoted : Bytes = text_of (
      bytes "\n\n---------- Original Message ----------\nFrom: "
      ∷ header_of (bytes "sender") headers
      ∷ bytes "\nSubject: "
      ∷ subject
      ∷ bytes "\n\n"
      ∷ original
      ∷ []) in
    text_of (
      bytes "<html><head><title>Reply Email</title></head><body>"
      ∷ bytes "<h1>Reply to Message</h1>"
      ∷ bytes "<form method='POST' action='/send'>"
      ∷ bytes "<input type='hidden' name='is_reply' value='true'>"
      ∷ bytes "<input type='hidden' name='original_id' value='"
      ∷ id
      ∷ bytes "'>"
      ∷ bytes "To: <input type='text' name='to' value='"
      ∷ reply_to
      ∷ bytes "'><br>"
      ∷ bytes "Subject: <input type='text' name='subject' value='"
      ∷ reply_subject
      ∷ bytes "'><br>"
      ∷ bytes "Body:<textarea name='body' rows='10' cols='30'>"
      ∷ quoted
      ∷ bytes "</textarea><br>"
      ∷ bytes "<input type='hidden' name='username' value='"
      ∷ username
      ∷ bytes "'>"
      ∷ bytes "<input type='submit' value='Send'></form>"
      ∷ bytes "<a href='/inbox?username="
      ∷ username
      ∷ bytes "'>Back to Inbox</a>"
      ∷ bytes "</body></html>"
      ∷ [])

unfoldable pub forward_page : Bytes → Bytes → Bytes → Bytes
unfolding text_of headers_of field prefixed is_err
forward_page username id stored =
    let headers : Map Bytes = headers_of id in
    let original : Bytes =
      if is_err stored then bytes "[Original message not available]" else stored in
    let subject : Bytes = header_of (bytes "subject") headers in
    let forward_subject : Bytes = prefixed (bytes "Fwd:") subject in
    let quoted : Bytes = text_of (
      bytes "\n\n---------- Forwarded Message ----------\nFrom: "
      ∷ header_of (bytes "sender") headers
      ∷ bytes "\nSubject: "
      ∷ subject
      ∷ bytes "\nDate: "
      ∷ header_of (bytes "timestamp") headers
      ∷ bytes "\n\n"
      ∷ original
      ∷ []) in
    text_of (
      bytes "<html><head><title>Forward Email</title></head><body>"
      ∷ bytes "<h1>Forward Message</h1>"
      ∷ bytes "<form method='POST' action='/send'>"
      ∷ bytes "<input type='hidden' name='is_forward' value='true'>"
      ∷ bytes "<input type='hidden' name='original_id' value='"
      ∷ id
      ∷ bytes "'>"
      ∷ bytes "To: <input type='text' name='to'><br>"
      ∷ bytes "Subject: <input type='text' name='subject' value='"
      ∷ forward_subject
      ∷ bytes "'><br>"
      ∷ bytes "Body:<textarea name='body' rows='10' cols='30'>"
      ∷ quoted
      ∷ bytes "</textarea><br>"
      ∷ bytes "<input type='hidden' name='username' value='"
      ∷ username
      ∷ bytes "'>"
      ∷ bytes "<input type='submit' value='Send'></form>"
      ∷ bytes "<a href='/inbox?username="
      ∷ username
      ∷ bytes "'>Back to Inbox</a>"
      ∷ bytes "</body></html>"
      ∷ [])

-- The page after a mail was sent, by whether it was delivered and kept.
unfoldable pub sent_page : Bytes → Bytes → Bool → Bool → Bytes
unfolding text_of
sent_page sender recipient delivered kept = text_of (
    bytes "<html><head><meta http-equiv='refresh' content='2;url=/inbox?username="
    ∷ sender
    ∷ bytes "'></head><body>"
    ∷ (if delivered
        then []
        else text_of (
            bytes "<p style='color:red;'>Warning: Failed to deliver to "
            ∷ recipient
            ∷ bytes "</p>"
            ∷ []))
    ∷ (if kept
        then []
        else bytes "<p style='color:red;'>Warning: Email was not stored in your sent folder</p>")
    ∷ bytes "<p>Email send attempt completed. Redirecting...</p></body></html>"
    ∷ [])

unfoldable pub delete_failed : Bytes
delete_failed =
    bytes
      "<html><body><h1>Error:</h1><p>Delete failed: email not found or server error.</p></body></html>"
