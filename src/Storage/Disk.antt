-- ===== src/Storage/Disk.antt =====
-- The calls of a client on the row of a user, and what the storage relies on.
use penn_cloud.Prelude.{
  Bytes, bytes, bytes_eq, bytes_eq_refl, ◌≡◌, refl, ◌∙◌, true, Option, none, some, if◌then◌else◌,
  arith, ◌&&◌, contains,
}
use penn_cloud.Op.{Op, put, cput, delete, row}
use penn_cloud.KeyValue
use penn_cloud.KeyValue.{KeyValue}
use penn_cloud.Service.{Service, Serves, is_err}

-- `Get`, `Put`, `Delete` and `CPut` of one `KeyValueStoreClient` on one row, whose replies to a write
-- the storage ignores.
pub record Disk (S : Type 0) : Type 0 where
  pub get : S → Bytes → Bytes
  pub put : S → Bytes → Bytes → S
  pub delete : S → Bytes → S
  pub cput : S → Bytes → Bytes → Bytes → S

unfoldable pub client_disk : {S : Type 0} → Service S → Bytes → Bytes → Disk S
client_disk service worker base_key = record {
  get = λ s c. service.get s worker base_key c;
  put = λ s c v. (service.write s worker (put base_key c v)).0;
  delete = λ s c. (service.write s worker (delete base_key c)).0;
  cput = λ s c old new. (service.write s worker (cput base_key c old new)).0;
}

-- The columns of the row.
abbrev pub Columns : Type 0
Columns = Bytes → Option Bytes

unfoldable pub set_column : Bytes → Bytes → Columns → Columns
set_column c v f d = if bytes_eq c d then some v else f d

unfoldable pub clear_column : Bytes → Columns → Columns
clear_column c f d = if bytes_eq c d then none else f d

unfoldable pub cput_column : Bytes → Bytes → Bytes → Columns → Columns
cput_column c old new f d = if bytes_eq c d && KeyValue.holds old (f c) then some new else f d

-- The row holds columns: a value is read as it is, a missing one as an error text, and a write
-- changes the columns as it promises.
pub record IsDisk {S : Type 0} (disk : Disk S) (Holds : S → Columns → Type 0) : Type 0 where
  pub get_value : (s : S) (f : Columns) (c v : Bytes) → Holds s f → f c ≡ some v → disk.get s c ≡ v
  pub get_missing :
      (s : S) (f : Columns) (c : Bytes) → Holds s f → f c ≡ none → is_err (disk.get s c) ≡ true
  pub put_holds :
      (s : S) (f : Columns) (c v : Bytes) → Holds s f → Holds (disk.put s c v) (set_column c v f)
  pub cput_holds :
      (s : S) (f : Columns) (c old new : Bytes)
      → Holds s f
      → Holds (disk.cput s c old new) (cput_column c old new f)
  pub delete_holds :
      (s : S) (f : Columns) (c : Bytes) → Holds s f → Holds (disk.delete s c) (clear_column c f)

-- The error text of a missing column says that it was not found.
abbrev pub SaysNotFound : {S : Type 0} → Disk S → (S → Columns → Type 0) → Type 0
SaysNotFound {S = S} disk Holds =
    (s : S) (f : Columns) (c : Bytes)
    → Holds s f
    → f c ≡ none
    → contains (bytes "not found") (disk.get s c) ≡ true

module _ {S : Type 0} (service : Service S) (Shows : S → KeyValue → Type 0)
    (At : S → Bytes → Bytes → Type 0) (serves : Serves service Shows At)
    (worker base_key : Bytes) where
  -- The store shows a map with these columns in the row, and the worker serves it.
  pub record RowShows (s : S) (f : Columns) : Type 0 where
    pub shown : KeyValue
    pub shows : Shows s shown
    pub at : At s worker base_key
    pub columns : (c : Bytes) → shown base_key c ≡ f c

  write-RowShows :
      (s : S) (f g : Columns) (op : Op)
      → row op ≡ base_key
      → ((shown : KeyValue)
          → ((c : Bytes) → shown base_key c ≡ f c)
          → (c : Bytes) → KeyValue.write op shown base_key c ≡ g c)
      → RowShows s f
      → RowShows (service.write s worker op).0 g
  write-RowShows s f g op here changes h = record {
    shown = KeyValue.write op h.shown;
    shows = serves.write_shows s h.shown worker op h.shows (rw here h.at);
    at = serves.write_keeps_at s worker base_key worker op h.at;
    columns = changes h.shown h.columns;
  }

  -- A client of the storage on a worker that serves the row of the user is a disk, if the store
  -- serves a map: a column is read as it is and a missing one as an error text, and Put, Delete and
  -- CPut change the columns as they promise, CPut only from the value that it expects.
  pub client_disk-IsDisk : IsDisk (client_disk service worker base_key) RowShows
  unfolding client_disk cput_column set_column clear_column KeyValue.write
  client_disk-IsDisk = record {
    get_value = λ s f c v h e.
        serves.get_value s h.shown worker base_key c v h.shows h.at (h.columns c ∙ e);
    get_missing =
        λ s f c h e. serves.get_missing s h.shown worker base_key c h.shows h.at (h.columns c ∙ e);
    put_holds = λ s f c v h.
        write-RowShows s f _ (put base_key c v) refl
          (λ g e d. ground (arith, e d, bytes_eq_refl base_key)) h;
    cput_holds = λ s f c old new h.
        write-RowShows s f _ (cput base_key c old new) refl
          (λ g e d. ground (arith, e c, e d, bytes_eq_refl base_key)) h;
    delete_holds = λ s f c h.
        write-RowShows s f _ (delete base_key c) refl
          (λ g e d. ground (arith, e d, bytes_eq_refl base_key)) h;
  }
