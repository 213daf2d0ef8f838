-- ===== src/Service.antt =====
-- What a program of the front end uses of the store, and what it relies on.
use penn_cloud.Prelude.{Bytes, bytes, bytes_eq, ◌≡◌, none, some, Bool, true, false, take}
use penn_cloud.Op.{Op, row, put, delete}
use penn_cloud.KeyValue
use penn_cloud.KeyValue.{KeyValue}

-- `MasterNodeClient::Lookup`, and the methods of a `KeyValueStoreClient` on a channel to `host`.
pub record Service (S : Type 0) : Type 0 where
  pub lookup : S → Bytes → S × Bytes
  pub get : S → Bytes → Bytes → Bytes → Bytes
  pub write : S → Bytes → Op → S × Bytes

-- `text.substr(0, 3) == "ERR"`, which is also `text.rfind("ERR", 0) == 0`.
unfoldable pub is_err : Bytes → Bool
is_err text = bytes_eq (take 3 text) (bytes "ERR")

-- The store shows a map: look-up finds a host that serves the key, a value is read from there
-- as it is and a missing one as an error text, and a write changes the map as it promises.
pub record Serves {S : Type 0} (service : Service S) (Shows : S → KeyValue → Type 0)
    (At : S → Bytes → Bytes → Type 0) : Type 0 where
  pub lookup_shows :
      (s : S) (f : KeyValue) (key : Bytes) → Shows s f → Shows (service.lookup s key).0 f
  pub lookup_host :
      (s : S) (f : KeyValue) (key : Bytes) → Shows s f → is_err (service.lookup s key).1 ≡ false
  pub lookup_at :
      (s : S) (f : KeyValue) (key : Bytes)
      → Shows s f
      → At (service.lookup s key).0 (service.lookup s key).1 key
  pub get_value :
      (s : S) (f : KeyValue) (host r c v : Bytes)
      → Shows s f
      → At s host r
      → f r c ≡ some v
      → service.get s host r c ≡ v
  pub get_missing :
      (s : S) (f : KeyValue) (host r c : Bytes)
      → Shows s f
      → At s host r
      → f r c ≡ none
      → is_err (service.get s host r c) ≡ true
  pub write_shows :
      (s : S) (f : KeyValue) (host : Bytes) (op : Op)
      → Shows s f
      → At s host (row op)
      → Shows (service.write s host op).0 (KeyValue.write op f)
  pub write_keeps_at :
      (s : S) (host key : Bytes) (h : Bytes) (op : Op)
      → At s host key
      → At (service.write s h op).0 host key

-- What Put and Delete return where the host serves the row: no error text.
pub record Answers {S : Type 0} (service : Service S) (Shows : S → KeyValue → Type 0)
    (At : S → Bytes → Bytes → Type 0) : Type 0 where
  pub put_ok :
      (s : S) (f : KeyValue) (host r c v : Bytes)
      → Shows s f
      → At s host r
      → is_err (service.write s host (put r c v)).1 ≡ false
  pub delete_ok :
      (s : S) (f : KeyValue) (host r c : Bytes)
      → Shows s f
      → At s host r
      → is_err (service.write s host (delete r c)).1 ≡ false
