-- ===== src/SingleNode.antt =====
-- The service of backend/kvs_server.h: one process that holds one tablet in memory.
pub mod Serving
use penn_cloud.Prelude.{Bytes, bytes, [], Option, none, some}
use penn_cloud.Tablet
use penn_cloud.Tablet.{
  Tablet, no_row, no_column, value, CputResult, row_missing, column_missing, value_differs, stored,
}
use penn_cloud.Rpc.{Status, success, error, cancelled, client_result}
use penn_cloud.Op.{Op, put, cput, delete}

abbrev refused : Status
refused = error cancelled []

-- The status, and `value` of the reply.
unfoldable pub get : Bytes → Bytes → Tablet → Status × Bytes
get r c t = elim (Tablet.get r c t) [
  | no_row ↦ (refused, [])
  | no_column ↦ (refused, [])
  | value v ↦ (success, v)
]

-- What the client's `Get` returns for this reply.
unfoldable pub read_reply : Bytes → Bytes → Tablet → Bytes
unfolding get client_result
read_reply r c t = let (status, v) = get r c t in client_result status v

cput_answer : Tablet → CputResult → Tablet × Status
cput_answer t row_missing = (t, refused)
cput_answer t column_missing = (t, refused)
cput_answer t value_differs = (t, refused)
cput_answer t (stored u) = (u, success)

-- The handlers of Put, CPut and Delete: the tablet after them, and the status.
unfoldable pub handle : Op → Tablet → Tablet × Status
unfolding cput_answer
handle (put r c v) t = (Tablet.put r c v t, success)
handle (cput r c current new) t = cput_answer t (Tablet.cput r c current new t)
handle (delete r c) t = (Tablet.delete r c t, success)

-- What the methods of `KeyValueStoreClient` return where the call succeeds.
unfoldable pub done : Op → Bytes
done (put r c v) = bytes "PUT Successful"
done (cput r c current new) = bytes "CPUT Successful"
done (delete r c) = bytes "Delete Successful"
