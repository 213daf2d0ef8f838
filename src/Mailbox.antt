-- ===== src/Mailbox.antt =====
-- The list of a mailbox's mails, frontend/email/email_service.cc: a column `meta` that holds their
-- ids with commas between them.
pub mod Ids
use penn_cloud.Prelude.{
  Bytes, bytes, bytes_eq, Bool, true, false, List, [], ◌∷◌, ◌++◌, getlines, not, ◌&&◌, ◌||◌,
  if◌then◌else◌,
}
use penn_cloud.Op.{put}
use penn_cloud.Service.{Service, is_err}

abbrev pub meta : Bytes
meta = bytes "meta"

abbrev pub is_blank : Bytes → Bool
is_blank text = bytes_eq text []

-- The loop over the tokens: those that are neither empty nor the id.
unfoldable pub keep : Bytes → List Bytes → List Bytes
keep email_id [] = []
keep email_id (token ∷ tokens) =
    let rest = keep email_id tokens in
    if not (is_blank token) && not (bytes_eq token email_id) then token ∷ rest else rest

text_from : Bytes → List Bytes → Bytes
text_from id [] = id
text_from id (next ∷ ids) = id ++ b',' ∷ text_from next ids

-- The loop that writes the ids, with a comma before each but the first.
unfoldable pub text : List Bytes → Bytes
unfolding text_from
text [] = []
text (id ∷ ids) = text_from id ids

-- `ClientPool::getWorkerClient` looks the row up and keeps the client for later; what Put returns
-- is ignored.
module _ {S : Type 0} (service : Service S) where
  unfoldable pub append_to_metadata : S → Bytes → Bytes → S
  append_to_metadata s mailbox_row email_id =
      let (s1, worker) = service.lookup s mailbox_row in
      let current_meta : Bytes = service.get s1 worker mailbox_row meta in
      let new_meta : Bytes =
        if is_err current_meta || is_blank current_meta
        then email_id
        else current_meta ++ b',' ∷ email_id in
      (service.write s1 worker (put mailbox_row meta new_meta)).0

  unfoldable pub remove_from_metadata : S → Bytes → Bytes → S
  unfolding keep text
  remove_from_metadata s mailbox_row email_id =
      let (s1, worker) = service.lookup s mailbox_row in
      let current_meta : Bytes = service.get s1 worker mailbox_row meta in
      if is_err current_meta
      then s1
      else (let ids : List Bytes = keep email_id (getlines b',' current_meta) in
          (service.write s1 worker (put mailbox_row meta (text ids))).0)
