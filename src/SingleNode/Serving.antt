-- ===== src/SingleNode/Serving.antt =====
-- What the handlers of backend/kvs_server.h keep.
use penn_cloud.Prelude.{
  Bytes, ◌≡◌, refl, sym, ap, ◌∙◌, Option, none, some, true, List, [], ◌∷◌, bytes_eq, to_string,
}
use penn_cloud.Tablet
use penn_cloud.Tablet.{
  Tablet, cell, Found, no_row, no_column, value, CputResult, row_missing, column_missing,
  value_differs, stored,
}
use penn_cloud.Tablet.Cells.{cell-get}
use penn_cloud.Rpc.{Status, success, error, cancelled, client_result, error_text, error_code}
use penn_cloud.Op.{Op, put, cput, delete, row, apply, apply_cput}
use penn_cloud.KeyValue
use penn_cloud.KeyValue.{KeyValue, cell-apply, write-eq, result, column}
use penn_cloud.Service.{is_err}
use penn_cloud.Map.{lookup}
use penn_cloud.Client.Replies.{Reads}
use penn_cloud.SingleNode.{get, handle, read_reply, cput_answer}

-- The tablet shows the map.
abbrev pub Shows : Tablet → KeyValue → Type 0
Shows t f = (r c : Bytes) → cell r c t ≡ f r c

handle-apply : (op : Op) (t : Tablet) → (handle op t).0 ≡ result t (apply op t)
unfolding handle apply cput_answer apply_cput
handle-apply (put r c v) t = refl
handle-apply (cput r c current new) t = of_answer (Tablet.cput r c current new t)
  where
    of_answer : (answer : CputResult) → (cput_answer t answer).0 ≡ result t (apply_cput answer)
    of_answer row_missing = refl
    of_answer column_missing = refl
    of_answer value_differs = refl
    of_answer (stored u) = refl
handle-apply (delete r c) t = refl

-- What the client returns for a value that was looked up.
read : Found → Bytes
read no_row = error_text (error_code cancelled) []
read no_column = error_text (error_code cancelled) []
read (value v) = v

get-read : (r c : Bytes) (t : Tablet) → read_reply r c t ≡ read (Tablet.get r c t)
unfolding read_reply get client_result read
get-read r c t = of_found (Tablet.get r c t)
  where
    of_found :
        (found : Found)
        → (let (status, v) : Status × Bytes = elim found [
          | no_row ↦ (error cancelled [], [])
          | no_column ↦ (error cancelled [], [])
          | value v ↦ (success, v)
        ] in
            client_result status v)
          ≡ read found
    of_found no_row = refl
    of_found no_column = refl
    of_found (value v) = refl

read-value :
    (found : Found) (v : Bytes)
    → elim found [ value v ↦ some v | _ ↦ none ] ≡ some v
    → read found ≡ v
unfolding read
read-value no_row v e = cc
read-value no_column v e = cc
read-value (value w) v e = cc

read-missing :
    (found : Found) → elim found [ value v ↦ some v | _ ↦ none ] ≡ none → is_err (read found) ≡ true
unfolding read is_err error_text error_code to_string bytes_eq
read-missing no_row e = refl
read-missing no_column e = refl
read-missing (value w) e = cc

pub read_reply-value :
    (t : Tablet) (f : KeyValue) (r c v : Bytes) → Shows t f → f r c ≡ some v → read_reply r c t ≡ v
read_reply-value t f r c v shows e =
    get-read r c t ∙ read-value (Tablet.get r c t) v (sym (cell-get r c t) ∙ shows r c ∙ e)

pub read_reply-missing :
    (t : Tablet) (f : KeyValue) (r c : Bytes)
    → Shows t f
    → f r c ≡ none
    → is_err (read_reply r c t) ≡ true
read_reply-missing t f r c shows e =
    rw (get-read r c t) (read-missing (Tablet.get r c t) (sym (cell-get r c t) ∙ shows r c ∙ e))

pub handle-Shows :
    (op : Op) (t : Tablet) (f : KeyValue) → Shows t f → Shows (handle op t).0 (KeyValue.write op f)
handle-Shows op t f shows r c =
    ap (cell r c) (handle-apply op t)
    ∙ cell-apply op t r c
    ∙ write-eq op (λ a b. cell a b t) f r c (shows (row op) (column op)) (shows r c)

fresh-Shows : Shows [] (λ a b. none)
unfolding cell lookup
fresh-Shows r c = refl

-- Calls of Put, CPut and Delete, one after the other, on the tablet and on the map.
unfoldable pub handle_all : List Op → Tablet → Tablet
unfolding handle
handle_all [] t = t
handle_all (op ∷ ops) t = handle_all ops (handle op t).0

unfoldable pub write_each : List Op → KeyValue → KeyValue
write_each [] f = f
write_each (op ∷ ops) f = write_each ops (KeyValue.write op f)

handle_all-Shows :
    (ops : List Op) (t : Tablet) (f : KeyValue)
    → Shows t f
    → Shows (handle_all ops t) (write_each ops f)
unfolding handle_all write_each
handle_all-Shows [] t f shows = shows
handle_all-Shows (op ∷ ops) t f shows =
    handle_all-Shows ops (handle op t).0 (KeyValue.write op f) (handle-Shows op t f shows)

-- After any Puts, CPuts and Deletes on an empty tablet of the early service, Get of the client
-- returns for every row and column the value that the same writes, in the same order, leave in the
-- map, as it is, and an error text where they leave none.
pub handle_all-Reads :
    (ops : List Op) (r c : Bytes)
    → Reads (read_reply r c (handle_all ops [])) (write_each ops (λ a b. none) r c)
handle_all-Reads ops r c = of_entry (write_each ops (λ a b. none) r c) refl
  where
    shown : Shows (handle_all ops []) (write_each ops (λ a b. none))
    shown = handle_all-Shows ops [] (λ a b. none) fresh-Shows

    of_entry :
        (entry : Option Bytes)
        → write_each ops (λ a b. none) r c ≡ entry
        → Reads (read_reply r c (handle_all ops [])) entry
    of_entry none e =
        read_reply-missing (handle_all ops []) (write_each ops (λ a b. none)) r c shown e
    of_entry (some v) e =
        read_reply-value (handle_all ops []) (write_each ops (λ a b. none)) r c v shown e
