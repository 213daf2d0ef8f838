-- ===== src/Rpc.antt =====
-- What a call of a gRPC service ends with, and the strings into which backend/kvs_client.h turns it.
-- The transport is not modelled: a call reaches its service, or ends with a status of gRPC's own.
use penn_cloud.Prelude.{ℕ, Bytes, bytes, [], ◌++◌, to_string}

pub data Code : Type 0 where
  cancelled invalid_argument not_found failed_precondition internal unavailable : Code

-- The numbers of `grpc::StatusCode`.
unfoldable pub error_code : Code → ℕ
error_code cancelled = 1
error_code invalid_argument = 3
error_code not_found = 5
error_code failed_precondition = 9
error_code internal = 13
error_code unavailable = 14

-- `threw` is a handler that an exception left.
pub data Status : Type 0 where
  success : Status
  error : Code → Bytes → Status
  threw : Status

-- `"ERR " + to_string(status.error_code()) + ": " + status.error_message() + "\n"`
unfoldable pub error_text : ℕ → Bytes → Bytes
unfolding to_string
error_text code message =
    bytes "ERR " ++ (to_string code ++ (bytes ": " ++ (message ++ bytes "\n")))

-- The two ways in which every method of the clients ends. gRPC reports an exception as UNKNOWN,
-- which is 2, with a text of its own that is left empty here.
unfoldable pub client_result : Status → Bytes → Bytes
unfolding error_text error_code
client_result success result = result
client_result (error code message) result = error_text (error_code code) message
client_result threw result = error_text 2 []
