-- ===== src/Op.antt =====
-- The three kinds of write of backend/worker.cc: what a handler does to the tablet, what it logs,
-- and what the replay of that entry does.
pub mod Replay
use penn_cloud.Prelude.{
  Bytes, bytes, bytes_eq, Option, none, some, Bool, true, false, List, [], ◌∷◌, if◌then◌else◌,
}
use penn_cloud.Tablet
use penn_cloud.Tablet.{Tablet, CputResult, row_missing, column_missing, value_differs, stored}
use penn_cloud.Logger.{CommandLog}
use penn_cloud.Rpc.{Code, not_found, failed_precondition}

-- PutRequest, CPutRequest and DeleteRequest.
pub data Op : Type 0 where
  put : Bytes → Bytes → Bytes → Op
  cput : Bytes → Bytes → Bytes → Bytes → Op
  delete : Bytes → Bytes → Op

abbrev pub row : Op → Bytes
row (put r c v) = r
row (cput r c current new) = r
row (delete r c) = r

-- The tablet after the write, or the status with which the handler returns early.
pub data Applied : Type 0 where
  refused : Code → Bytes → Applied
  applied : Tablet → Applied

unfoldable pub apply_cput : CputResult → Applied
apply_cput row_missing = refused not_found (bytes "Row key not found")
apply_cput column_missing = refused not_found (bytes "Column key not found")
apply_cput value_differs =
    refused failed_precondition (bytes "Current value does not match specified value")
apply_cput (stored t) = applied t

unfoldable pub apply : Op → Tablet → Applied
unfolding apply_cput
apply (put r c v) t = applied (Tablet.put r c v t)
apply (cput r c current new) t = apply_cput (Tablet.cput r c current new t)
apply (delete r c) t = applied (Tablet.delete r c t)

unfoldable pub log_entry : Op → CommandLog
log_entry (put r c v) = record {
  command = bytes "PUT";
  row = r;
  column = c;
  value1 = v;
  value2 = bytes "NULL";
}
log_entry (cput r c current new) = record {
  command = bytes "CPUT";
  row = r;
  column = c;
  value1 = current;
  value2 = new;
}
log_entry (delete r c) = record {
  command = bytes "DELETE";
  row = r;
  column = c;
  value1 = bytes "NULL";
  value2 = bytes "NULL";
}

abbrev replayed_cput : CputResult → Option Tablet
replayed_cput (stored t) = some t
replayed_cput _ = none

-- One round of the replay; `none` is `return false`, which leaves the tablet as it is.
unfoldable pub replay_command : CommandLog → Tablet → Option Tablet
replay_command cl t =
    if bytes_eq cl.command (bytes "PUT")
    then some (Tablet.put cl.row cl.column cl.value1 t)
    else if bytes_eq cl.command (bytes "CPUT")
    then replayed_cput (Tablet.cput cl.row cl.column cl.value1 cl.value2 t)
    else if bytes_eq cl.command (bytes "DELETE")
    then some (Tablet.delete cl.row cl.column t)
    else none

unfoldable pub replay_logs : List CommandLog → Tablet → Tablet × Bool
replay_logs [] t = (t, true)
replay_logs (cl ∷ cls) t = elim (replay_command cl t) [
  | none ↦ (t, false)
  | some t' ↦ replay_logs cls t'
]
