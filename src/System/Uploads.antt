-- ===== src/System/Uploads.antt =====
-- The files of the storage on the six workers: frontend/storage/storage_service.cc on backend/.
use penn_cloud.Prelude.{
  ℕ, ◌^◌, ◌<◌, Bytes, bytes, ◌≡◌, refl, ap, ◌∙◌, none, some, ◌∷◌, length, true, contains,
}
use penn_cloud.Placement.{address}
use penn_cloud.Placement.Hosts.{IsNode, hash_to_bucket-IsNode}
use penn_cloud.KeyValue.{KeyValue}
use penn_cloud.Worker.{Platform}
use penn_cloud.Tablet.{cell}
use penn_cloud.Client.Replies.{get-not_found}
use penn_cloud.System.{System, store}
use penn_cloud.System.Serving.{Shows, At, store-Serves}
use penn_cloud.System.Answering.{primary}
use penn_cloud.Storage.Disk.{Disk, RowShows, SaysNotFound, client_disk, client_disk-IsDisk}
use penn_cloud.Storage.Names.{metadata_column}
use penn_cloud.Storage.Files.{file_path, store_file, read_file}
use penn_cloud.Storage.RoundTrip.{IsName}
use penn_cloud.Storage.Upload.{store_file-read_file}

-- The storage asks for the worker of the user's row, and opens a client on what it is told.
abbrev pub looked_up : (p : Platform) (reach : Bytes → ℕ) → System → Bytes → System
looked_up p reach s base_key = ((store p reach).lookup s base_key).0

abbrev pub user_disk : (p : Platform) (reach : Bytes → ℕ) → System → Bytes → Disk System
user_disk p reach s base_key =
    client_disk (store p reach) ((store p reach).lookup s base_key).1 base_key

module _ (p : Platform) (reach : Bytes → ℕ)
    (reaches : (id : ℕ) → IsNode id → reach (address id) ≡ id) where
  missing-not_found :
      (s : System) (f : KeyValue) (host r c : Bytes)
      → Shows p s f
      → At p s host r
      → f r c ≡ none
      → contains (bytes "not found") ((store p reach).get s host r c) ≡ true
  unfolding store
  missing-not_found s f host r c shows at missing =
      let (up, place) = primary p reach reaches s f host r shows at in
      get-not_found p s.cluster (reach host) 0 r c up place (
        ap (λ n. cell r c ((s.cluster n).tablets 0))
          (ap reach at ∙ reaches _ (hash_to_bucket-IsNode p.hash r))
        ∙ (shows.agree.copies r c).0
        ∙ missing)

  disk-SaysNotFound :
      (worker base_key : Bytes)
      → SaysNotFound
          (client_disk (store p reach) worker base_key)
          (RowShows (store p reach) (Shows p) (At p) (store-Serves p reach reaches) worker base_key)
  unfolding client_disk
  disk-SaysNotFound worker base_key s f c holds missing =
      missing-not_found s holds.shown worker base_key c holds.shows holds.at
        (holds.columns c ∙ missing)

  -- On six workers that are up, taken for alive under their addresses and whose copies show a map,
  -- where a channel to a worker's address leads to that worker: a file that is not empty and
  -- shorter than 2^31 bytes is stored, under the path that is chosen for it, on the worker that the
  -- look-up of the row names, and reading the path there gives the content again; if the map has no
  -- list of chunks under the path, and if the path has no comma and does not contain the words not
  -- found.
  pub upload-read_file :
      (fuel : ℕ) (s : System) (f : KeyValue) (base_key folder filename path shown : Bytes) (x : ℕ)
      (content : Bytes)
      → Shows p s f
      → file_path (user_disk p reach s base_key) fuel (looked_up p reach s base_key) folder filename
        ≡ some (path, shown)
      → IsName path
      → f base_key (metadata_column path) ≡ none
      → length (x ∷ content) < 2 ^ 31
      → (s1 : System) × (store_file
            (user_disk p reach s base_key)
            fuel
            (looked_up p reach s base_key)
            folder
            filename
            (x ∷ content)
          ≡ some (s1, shown))
        × (read_file (user_disk p reach s base_key) s1 path ≡ x ∷ content)
  upload-read_file fuel s f base_key folder filename path shown x content shows chosen good missing
        small =
      let serves = store-Serves p reach reaches in
      let worker : Bytes = ((store p reach).lookup s base_key).1 in
      store_file-read_file (user_disk p reach s base_key)
        (RowShows (store p reach) (Shows p) (At p) serves worker base_key)
        (client_disk-IsDisk (store p reach) (Shows p) (At p) serves worker base_key)
        (disk-SaysNotFound worker base_key) fuel (looked_up p reach s base_key) (f base_key) folder
        filename path shown x content
        (record {
          shown = f;
          shows = serves.lookup_shows s f base_key shows;
          at = serves.lookup_at s f base_key shows;
          columns = λ c. refl;
        })
        chosen good missing small
