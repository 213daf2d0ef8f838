-- ===== src/Storage/Upload.antt =====
-- A file that is stored is read again.
use penn_cloud.Prelude.{
  ℕ, zero, suc, ◌+◌, ◌^◌, ◌≤◌, ◌<◌, take-whole, Bytes, bytes, bytes_eq, ◌≡◌, ◌≢◌, refl, ap, ◌∙◌,
  Option, none, some, List, [], ◌∷◌, ◌++◌, All, arith, length, length-append, to_string,
  Option-cases, inl, inr,
}
use penn_cloud.TextServer.{cut}
use penn_cloud.Storage.Disk.{Disk, Columns, IsDisk, SaysNotFound, set_column, cput_column}
use penn_cloud.Storage.Names.{path_in, listing, metadata_column, content_column, joined}
use penn_cloud.Storage.Lists.{split_string-joined}
use penn_cloud.Storage.Tree.{file_marker}
use penn_cloud.Storage.Files.{
  numbered, int_size, number_file, file_path, store_file, store_chunks, list_file, read_file,
  upload_chunk,
}
use penn_cloud.Storage.RoundTrip.{
  IsName, Listed, chunk_names, texts, both, bytes_eq-differ, All-no_comma, store_chunks-Stored,
  read_chunks-texts,
}

-- A text that was cut has the bytes of both pieces and one more.
CutLength : Bytes → Option (Bytes × Bytes) → Type 0
CutLength s none = Unit
CutLength s (some (a, b)) = length s ≡ length a + suc (length b)

cut-CutLength : (d : ℕ) (s : Bytes) → CutLength s (cut d s)
unfolding cut CutLength
cut-CutLength d [] = tt
cut-CutLength d (x ∷ s) = ground (arith, cut-CutLength d s)

-- No shorter than `path`, if there is one.
NoShorter : Bytes → Option Bytes → Type 0
NoShorter path none = Unit
NoShorter path (some new_path) = length path ≤ length new_path

numbered-NoShorter : (path : Bytes) (i : ℕ) → NoShorter path (numbered path i)
unfolding numbered NoShorter CutLength
numbered-NoShorter path i = go (cut b'.' path) (cut-CutLength b'.' path)
  where
    go :
        (found : Option (Bytes × Bytes))
        → CutLength path found
        → NoShorter path (elim found [
          | none ↦ none
          | some (base, suffix) ↦ some (base ++ (b'(' ∷ (to_string i ++ (b')' ∷ (b'.' ∷ suffix)))))
        ])
    go none h = tt
    go (some (base, suffix)) h = omega (
      arith,
      h,
      length-append base (b'(' ∷ (to_string i ++ (b')' ∷ (b'.' ∷ suffix)))),
      length-append (to_string i) (b')' ∷ (b'.' ∷ suffix)),
    )

int_size-small : (size : ℕ) → size < 2 ^ 31 → int_size size ≡ size
unfolding int_size
int_size-small size h = ground (arith, h)

last : ℕ → Bytes → ℕ
last d [] = d
last d (x ∷ s) = last x s

last-append : (d : ℕ) (a : Bytes) (x : ℕ) (s : Bytes) → last d (a ++ x ∷ s) ≡ last x s
unfolding last
last-append d [] x s = refl
last-append d (y ∷ a) x s = last-append y a x s

pub metadata-content : (path name : Bytes) → metadata_column path ≢ content_column name
unfolding last
metadata-content path name e = omega (
  arith,
  ap (last 0) e,
  last-append 0 path b'-' (bytes "metadata"),
  last-append 0 name b'-' (bytes "content"),
)

-- The list of a folder is neither the content nor the list of a file in it.
listing-content : (folder name : Bytes) → listing folder ≢ content_column name
unfolding listing last bytes_eq
listing-content [] name e =
    absurd (omega (arith, ap (last 0) e, last-append 0 name b'-' (bytes "content")))
listing-content (x ∷ folder) name e = absurd (
    omega (
      arith,
      ap (last 0) e,
      last-append x folder b'-' (bytes "metadata"),
      last-append 0 name b'-' (bytes "content"),
    ))

listing-metadata :
    (folder filename path : Bytes)
    → length (path_in folder filename) ≤ length path
    → listing folder ≢ metadata_column path
unfolding listing path_in bytes_eq
listing-metadata [] filename path longer e =
    absurd (omega (arith, ap (λ t. length t) e, length-append path (bytes "-metadata"), longer))
listing-metadata (x ∷ folder) filename path longer e = absurd (
    omega (
      arith,
      ap (λ t. length t) e,
      length-append path (bytes "-metadata"),
      length-append folder (bytes "-metadata"),
      length-append folder (b'/' ∷ filename),
      longer,
    ))

module _ {S : Type 0} (disk : Disk S) (Holds : S → Columns → Type 0) (is_disk : IsDisk disk Holds)
    (says : SaysNotFound disk Holds) where
  number_file-NoShorter :
      (fuel : ℕ) (s : S) (path : Bytes) (i : ℕ) (new_path : Bytes) (j : ℕ)
      → number_file disk fuel s path i ≡ some (new_path, j)
      → length path ≤ length new_path
  unfolding number_file NoShorter
  number_file-NoShorter zero s path i new_path j e = cc
  number_file-NoShorter (suc fuel) s path i new_path j e =
      ground
        (arith, e, numbered-NoShorter path i, number_file-NoShorter fuel s path (suc i) new_path j)

  file_path-NoShorter :
      (fuel : ℕ) (s : S) (folder filename path shown : Bytes)
      → file_path disk fuel s folder filename ≡ some (path, shown)
      → length (path_in folder filename) ≤ length path
  unfolding file_path
  file_path-NoShorter fuel s folder filename path shown e =
      let plain : Bytes = path_in folder filename in
      elim (Option-cases (number_file disk fuel s plain 1)) [
        | inl none_free ↦ ground (arith, e, none_free)
        | inr ((new_path, i), found) ↦
            ground (arith, e, found, number_file-NoShorter fuel s plain 1 new_path i found)
      ]

  listing-apart :
      (folder old new c : Bytes) (g : Columns)
      → listing folder ≢ c
      → cput_column (listing folder) old new g c ≡ g c
  unfolding cput_column
  listing-apart folder old new c g apart = rw (bytes_eq-differ (listing folder) c apart) refl

  -- The list of the folder changes neither the list nor the content of a file in it.
  texts-listing :
      (folder old new : Bytes) (g : Columns) (names : List Bytes)
      → texts (cput_column (listing folder) old new g) names ≡ texts g names
  texts-listing folder old new g [] = refl
  texts-listing folder old new g (name ∷ names) =
      ap (λ text. both text (texts (cput_column (listing folder) old new g) names))
        (listing-apart folder old new (content_column name) g (listing-content folder name))
      ∙ ap (both (g (content_column name))) (texts-listing folder old new g names)

  list_file-Holds :
      (s : S) (g : Columns) (folder filename path : Bytes)
      → Holds s g
      → (old : Bytes) × (new : Bytes) × Holds
          (list_file disk s folder filename path)
          (cput_column (listing folder) old new g)
  unfolding list_file
  list_file-Holds s g folder filename path holds =
      (_, _, is_disk.cput_holds s g (listing folder) _ _ holds)

  -- What is stored once the path is chosen.
  stored_under : S → Bytes → Bytes → Bytes → Bytes → S
  stored_under s folder path shown content =
      list_file disk
        (store_chunks disk (length content) upload_chunk (disk.put s path file_marker) path 1
          content)
        folder shown path

  store_file-chosen :
      (fuel : ℕ) (s : S) (folder filename path shown content : Bytes)
      → file_path disk fuel s folder filename ≡ some (path, shown)
      → length content < 2 ^ 31
      → store_file disk fuel s folder filename content
        ≡ some (stored_under s folder path shown content, shown)
  unfolding store_file stored_under
  store_file-chosen fuel s folder filename path shown content chosen small =
      rw
        (
          chosen,
          int_size-small (length content) small,
          take-whole (length content) content (omega arith),
          store_file,
        )
        refl

  marked-Listed :
      (f : Columns) (path : Bytes)
      → f (metadata_column path) ≡ none
      → Listed (set_column path file_marker f) path []
  unfolding set_column
  marked-Listed f path missing =
      rw
        (bytes_eq-differ path (metadata_column path)
          (λ e. omega (arith, ap (λ t. length t) e, length-append path (bytes "-metadata"))))
        missing

  pub listed-read :
      (s : S) (g : Columns) (path name content : Bytes) (names : List Bytes)
      → Holds s g
      → g (metadata_column path) ≡ some (joined (name ∷ names))
      → All IsName (name ∷ names)
      → texts g (name ∷ names) ≡ some content
      → read_file disk s path ≡ content
  unfolding read_file
  listed-read s g path name content names holds listed good reads =
      rw
        (
          is_disk.get_value s g (metadata_column path) _ holds listed,
          split_string-joined name names (All-no_comma (name ∷ names) good),
        )
        (read_chunks-texts disk Holds is_disk says s g (name ∷ names) content holds reads)

  -- On a disk that holds columns, a file whose content is not empty and shorter than 2^31 bytes is
  -- stored under the path that is chosen for it, and reading that path gives the content again,
  -- chunk behind chunk; if nothing is left of a list of chunks under the path, if the path has no
  -- comma and does not contain the words not found, and if the error text for a missing column
  -- contains them.
  pub store_file-read_file :
      (fuel : ℕ) (s : S) (f : Columns) (folder filename path shown : Bytes) (x : ℕ)
      (content : Bytes)
      → Holds s f
      → file_path disk fuel s folder filename ≡ some (path, shown)
      → IsName path
      → f (metadata_column path) ≡ none
      → length (x ∷ content) < 2 ^ 31
      → (s1 : S) × (store_file disk fuel s folder filename (x ∷ content) ≡ some (s1, shown))
        × (read_file disk s1 path ≡ x ∷ content)
  unfolding stored_under
  store_file-read_file fuel s f folder filename path shown x content holds chosen good missing
        small =
      let s0 : S = disk.put s path file_marker in
      let stored =
        store_chunks-Stored disk Holds is_disk says (length (x ∷ content)) upload_chunk s0
          (set_column path file_marker f) path 1 [] (x ∷ content) (omega arith) (omega arith) good
          (is_disk.put_holds s f path file_marker holds) (marked-Listed f path missing) tt in
      let apart =
        listing-metadata folder filename path
          (file_path-NoShorter fuel s folder filename path shown chosen) in
      let (old, new, listed) = list_file-Holds _ stored.columns folder shown path stored.holds in
      (
        stored_under s folder path shown (x ∷ content),
        store_file-chosen fuel s folder filename path shown (x ∷ content) chosen small,
        listed-read _ (cput_column (listing folder) old new stored.columns) path _ (x ∷ content) _
            listed
            (listing-apart folder old new (metadata_column path) stored.columns apart
              ∙ stored.listed)
            stored.all_named
            (texts-listing folder old new stored.columns
                (chunk_names (length (x ∷ content)) upload_chunk path 1 (x ∷ content))
              ∙ stored.reads),
      )
