-- ===== src/Mailbox/Ids.antt =====
-- The metadata of a mailbox as the list of its ids.
use penn_cloud.Prelude.{
  Bytes, bytes_eq, ◌≡◌, refl, sym, ap, ◌∙◌, true, false, none, some, List, [], ◌∷◌, ◌++◌, All,
  append_assoc, getlines, split_from, ◌||◌, if◌then◌else◌, arith, ◌⊎◌, inl, inr,
}
use penn_cloud.Op.{put}
use penn_cloud.KeyValue
use penn_cloud.KeyValue.{KeyValue}
use penn_cloud.TextServer.Lines.{Lacks, getlines-piece, getlines-last}
use penn_cloud.Service.{Service, Serves, is_err}
use penn_cloud.Mailbox.{
  meta, is_blank, keep, text, text_from, append_to_metadata, remove_from_metadata,
}

abbrev pub IsId : Bytes → Type 0
IsId id = (is_blank id ≡ false) × Lacks b',' id

-- The mailbox holds these ids; one that was never written to holds none.
abbrev pub IsMailbox : KeyValue → Bytes → List Bytes → Type 0
IsMailbox f mailbox_row ids =
    (f mailbox_row meta ≡ some (text ids)) ⊎ ((f mailbox_row meta ≡ none) × (ids ≡ []))

abbrev pub without : Bytes → List Bytes → List Bytes
without email_id [] = []
without email_id (id ∷ ids) =
    let rest = without email_id ids in if bytes_eq id email_id then rest else id ∷ rest

getlines-id : (id : Bytes) → IsId id → getlines b',' id ≡ id ∷ []
unfolding bytes_eq
getlines-id [] h = cc
getlines-id (x ∷ id) h = getlines-last b',' x id h.1

getlines-text_from :
    (id : Bytes) (ids : List Bytes)
    → All IsId (id ∷ ids)
    → getlines b',' (text_from id ids) ≡ id ∷ ids
unfolding text_from
getlines-text_from id [] h = getlines-id id h.0
getlines-text_from id (next ∷ ids) h =
    getlines-piece b',' id (text_from next ids) h.0.1
    ∙ ap (◌∷◌ id) (getlines-text_from next ids h.1)

getlines-text : (ids : List Bytes) → All IsId ids → getlines b',' (text ids) ≡ ids
unfolding text getlines split_from
getlines-text [] h = refl
getlines-text (id ∷ ids) h = getlines-text_from id ids h

keep-without :
    (email_id : Bytes) (ids : List Bytes) → All IsId ids → keep email_id ids ≡ without email_id ids
unfolding keep
keep-without email_id [] h = refl
keep-without email_id (id ∷ ids) h = ground (arith, h.0.0, keep-without email_id ids h.1)

text_from-append :
    (id : Bytes) (ids : List Bytes) (email_id : Bytes)
    → text_from id (ids ++ email_id ∷ []) ≡ text_from id ids ++ b',' ∷ email_id
unfolding text_from
text_from-append id [] email_id = refl
text_from-append id (next ∷ ids) email_id =
    ap (λ (t : Bytes). id ++ b',' ∷ t) (text_from-append next ids email_id)
    ∙ sym (append_assoc id (b',' ∷ text_from next ids) (b',' ∷ email_id))

is_blank-text_from :
    (id : Bytes) (ids : List Bytes) → is_blank id ≡ false → is_blank (text_from id ids) ≡ false
unfolding text_from bytes_eq
is_blank-text_from [] ids h = cc
is_blank-text_from (x ∷ id) [] h = refl
is_blank-text_from (x ∷ id) (next ∷ ids) h = refl

-- What is written behind the ids.
appended :
    (ids : List Bytes) (email_id : Bytes)
    → All IsId ids
    → is_err (text ids) ≡ false
    → (if is_err (text ids) || is_blank (text ids) then email_id else text ids ++ b',' ∷ email_id)
      ≡ text (ids ++ email_id ∷ [])
unfolding text text_from is_err bytes_eq
appended [] email_id h ok = refl
appended (id ∷ ids) email_id h ok =
    ground (arith, is_blank-text_from id ids h.0.0, text_from-append id ids email_id)

module _ {S : Type 0} (service : Service S) (Shows : S → KeyValue → Type 0)
    (At : S → Bytes → Bytes → Type 0) (serves : Serves service Shows At) where
  looked_up-put :
      (s : S) (f : KeyValue) (mailbox_row value : Bytes)
      → Shows s f
      → let looked = service.lookup s mailbox_row in
        Shows
          (service.write looked.0 looked.1 (put mailbox_row meta value)).0
          (KeyValue.write (put mailbox_row meta value) f)
  looked_up-put s f mailbox_row value shows =
      serves.write_shows _ f _ (put mailbox_row meta value)
        (serves.lookup_shows s f mailbox_row shows) (serves.lookup_at s f mailbox_row shows)

  stored_ids :
      (s : S) (f : KeyValue) (mailbox_row stored : Bytes)
      → Shows s f
      → f mailbox_row meta ≡ some stored
      → let looked = service.lookup s mailbox_row in
        service.get looked.0 looked.1 mailbox_row meta ≡ stored
  stored_ids s f mailbox_row stored shows e =
      serves.get_value _ f _ mailbox_row meta stored (serves.lookup_shows s f mailbox_row shows)
        (serves.lookup_at s f mailbox_row shows) e

  no_ids :
      (s : S) (f : KeyValue) (mailbox_row : Bytes)
      → Shows s f
      → f mailbox_row meta ≡ none
      → let looked = service.lookup s mailbox_row in
        is_err (service.get looked.0 looked.1 mailbox_row meta) ≡ true
  no_ids s f mailbox_row shows e =
      serves.get_missing _ f _ mailbox_row meta (serves.lookup_shows s f mailbox_row shows)
        (serves.lookup_at s f mailbox_row shows) e

  append-stored :
      (s : S) (f : KeyValue) (mailbox_row email_id : Bytes) (ids : List Bytes)
      → Shows s f
      → All IsId ids
      → is_err (text ids) ≡ false
      → f mailbox_row meta ≡ some (text ids)
      → Shows
          (append_to_metadata service s mailbox_row email_id)
          (KeyValue.write (put mailbox_row meta (text (ids ++ email_id ∷ []))) f)
  unfolding append_to_metadata
  append-stored s f mailbox_row email_id ids shows h ok e =
      rw
        (
          append_to_metadata,
          stored_ids s f mailbox_row (text ids) shows e,
          appended ids email_id h ok,
        )
        (looked_up-put s f mailbox_row (text (ids ++ email_id ∷ [])) shows)

  append-missing :
      (s : S) (f : KeyValue) (mailbox_row email_id : Bytes)
      → Shows s f
      → f mailbox_row meta ≡ none
      → Shows
          (append_to_metadata service s mailbox_row email_id)
          (KeyValue.write (put mailbox_row meta (text (email_id ∷ []))) f)
  unfolding append_to_metadata text text_from
  append-missing s f mailbox_row email_id shows e =
      rw (append_to_metadata, no_ids s f mailbox_row shows e)
        (looked_up-put s f mailbox_row email_id shows)

  -- On a store that serves a map, removing an id from a mailbox of ids without commas, of which
  -- none is empty and whose text is not like an error text, writes those that are another one, in
  -- order.
  pub remove-IsMailbox :
      (s : S) (f : KeyValue) (mailbox_row email_id : Bytes) (ids : List Bytes)
      → Shows s f
      → All IsId ids
      → is_err (text ids) ≡ false
      → f mailbox_row meta ≡ some (text ids)
      → Shows
          (remove_from_metadata service s mailbox_row email_id)
          (KeyValue.write (put mailbox_row meta (text (without email_id ids))) f)
  unfolding remove_from_metadata
  remove-IsMailbox s f mailbox_row email_id ids shows h ok e =
      rw
        (
          stored_ids s f mailbox_row (text ids) shows e,
          ok,
          getlines-text ids h,
          keep-without email_id ids h,
        )
        (looked_up-put s f mailbox_row (text (without email_id ids)) shows)

  -- On a store that serves a map, appending an id to a mailbox of ids without commas, of which none
  -- is empty and whose text is not like an error text, writes these ids and the new one behind
  -- them; also to a mailbox that was never written to.
  pub append-IsMailbox :
      (s : S) (f : KeyValue) (mailbox_row email_id : Bytes) (ids : List Bytes)
      → Shows s f
      → All IsId ids
      → is_err (text ids) ≡ false
      → IsMailbox f mailbox_row ids
      → Shows
          (append_to_metadata service s mailbox_row email_id)
          (KeyValue.write (put mailbox_row meta (text (ids ++ email_id ∷ []))) f)
  append-IsMailbox s f mailbox_row email_id ids shows h ok (inl e) =
      append-stored s f mailbox_row email_id ids shows h ok e
  append-IsMailbox s f mailbox_row email_id ids shows h ok (inr (e, none_yet)) =
      rw none_yet (append-missing s f mailbox_row email_id shows e)
