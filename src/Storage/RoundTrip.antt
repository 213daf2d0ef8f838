-- ===== src/Storage/RoundTrip.antt =====
-- What is stored in chunks is read again.
use penn_cloud.Prelude.{
  ℕ, zero, suc, ◌≤◌, ◌<◌, Bytes, bytes_eq, bytes_eq_iff, bytes_eq_refl, ◌≡◌, ◌≢◌, refl, sym, ◌∙◌,
  false, Option, none, some, List, [], ◌∷◌, ◌++◌, append-nil, append_assoc, All, All-append, arith,
  length, length-drop, drop, take, take-append-drop, to_string, to_string-IsDigit, IsDigit,
  contains, if◌then◌else◌, Bool-cases, Option-cases, inl, inr,
}
use mathlib.Core.Path.{subst}
use penn_cloud.TextServer.Lines.{Lacks}
use penn_cloud.Storage.Disk.{Disk, Columns, IsDisk, SaysNotFound, set_column}
use penn_cloud.Storage.Names.{joined, behind, metadata_column, content_column}
use penn_cloud.Storage.Lists.{joined-append, content-chunk_name, content-metadata}
use penn_cloud.Storage.Search.{not_found, contains-joined, contains-dash}
use penn_cloud.Storage.Files.{chunk_name, store_chunk, store_chunks, read_chunks}

-- A name that may stand in the list of a file.
pub record IsName (name : Bytes) : Type 0 where
  pub no_comma : Lacks b',' name
  pub found : contains not_found name ≡ false

digit-Lacks : (s : Bytes) → All IsDigit s → Lacks b',' s
digit-Lacks [] h = tt
digit-Lacks (x ∷ s) h = (ground (arith, h.0.0), digit-Lacks s h.1)

All-found :
    (names : List Bytes) → All IsName names → All (λ name. contains not_found name ≡ false) names
All-found [] h = tt
All-found (name ∷ names) h = (h.0.found, All-found names h.1)

pub All-no_comma : (names : List Bytes) → All IsName names → All (Lacks b',') names
All-no_comma [] h = tt
All-no_comma (name ∷ names) h = (h.0.no_comma, All-no_comma names h.1)

pub chunk_name-IsName : (path : Bytes) (i : ℕ) → IsName path → IsName (chunk_name path i)
unfolding chunk_name
chunk_name-IsName path i h = record {
  no_comma =
      All-append _ path (b'-' ∷ to_string i) h.no_comma
        (refl, digit-Lacks (to_string i) (to_string-IsDigit i));
  found = contains-dash path (to_string i) h.found (to_string-IsDigit i);
}

-- The list of a file holds these names; without a list there are none yet.
abbrev pub Listed : Columns → Bytes → List Bytes → Type 0
Listed f path [] = f (metadata_column path) ≡ none
Listed f path (name ∷ names) = f (metadata_column path) ≡ some (joined (name ∷ names))

-- The columns after one chunk.
abbrev chunk_stored : Bytes → Bytes → Bytes → List Bytes → Columns → Columns
chunk_stored path name chunk names f =
    set_column (content_column name) chunk
      (set_column (metadata_column path) (joined (names ++ name ∷ [])) f)

joined-one : (name : Bytes) → joined (name ∷ []) ≡ name
unfolding joined behind
joined-one name = append-nil name

-- The names under which the loop stores the chunks.
abbrev pub chunk_names : ℕ → ℕ → Bytes → ℕ → Bytes → List Bytes
chunk_names zero size path i content = []
chunk_names (suc fuel) size path i [] = []
chunk_names (suc fuel) size path i (x ∷ content) =
    chunk_name path i ∷ chunk_names fuel size path (suc i) (drop size (x ∷ content))

abbrev pub both : Option Bytes → Option Bytes → Option Bytes
both (some text) (some more) = some (text ++ more)
both _ _ = none

-- The texts of the chunks together, if all are there.
abbrev pub texts : Columns → List Bytes → Option Bytes
texts g [] = some []
texts g (name ∷ names) = both (g (content_column name)) (texts g names)

Listed-append :
    (f : Columns) (path name : Bytes) (names : List Bytes)
    → f (metadata_column path) ≡ some (joined (names ++ name ∷ []))
    → Listed f path (names ++ name ∷ [])
Listed-append f path name [] e = e
Listed-append f path name (next ∷ names) e = e

pub bytes_eq-differ : (a b : Bytes) → a ≢ b → bytes_eq a b ≡ false
bytes_eq-differ a b h = elim (Bool-cases (bytes_eq a b)) [
  | inl e ↦ absurd (h ((bytes_eq_iff a b).0 e))
  | inr e ↦ e
]

-- What a chunk leaves in its own column, in that of the list and in those of other chunks.
chunk_stored-own :
    (path chunk : Bytes) (i : ℕ) (names : List Bytes) (f : Columns)
    → chunk_stored path (chunk_name path i) chunk names f (content_column (chunk_name path i))
      ≡ some chunk
unfolding set_column
chunk_stored-own path chunk i names f = rw (bytes_eq_refl (content_column (chunk_name path i))) refl

chunk_stored-list :
    (path chunk : Bytes) (i : ℕ) (names : List Bytes) (f : Columns)
    → chunk_stored path (chunk_name path i) chunk names f (metadata_column path)
      ≡ some (joined (names ++ chunk_name path i ∷ []))
unfolding set_column
chunk_stored-list path chunk i names f =
    rw (bytes_eq-differ _ _ (content-metadata path i), bytes_eq_refl (metadata_column path)) refl

chunk_stored-other :
    (path chunk : Bytes) (i j : ℕ) (names : List Bytes) (f : Columns)
    → j < i
    → chunk_stored path (chunk_name path i) chunk names f (content_column (chunk_name path j))
      ≡ f (content_column (chunk_name path j))
unfolding set_column
chunk_stored-other path chunk i j names f before =
    rw
      (
        bytes_eq-differ (content_column (chunk_name path i)) (content_column (chunk_name path j))
            (λ e. omega (arith, before, content-chunk_name path i j e)),
        bytes_eq-differ (metadata_column path) (content_column (chunk_name path j))
            (λ e. content-metadata path j (sym e)),
      )
      refl

module _ {S : Type 0} (disk : Disk S) (Holds : S → Columns → Type 0) (is_disk : IsDisk disk Holds)
    (says : SaysNotFound disk Holds) where
  extended_list :
      (s : S) (f : Columns) (path name : Bytes) (names : List Bytes)
      → Holds s f
      → Listed f path names
      → All IsName names
      → (let list : Bytes = disk.get s (metadata_column path) in
          if contains not_found list then name else list ++ b',' ∷ name)
        ≡ joined (names ++ name ∷ [])
  extended_list s f path name [] holds listed good =
      rw (says s f (metadata_column path) holds listed) (sym (joined-one name))
  extended_list s f path name (next ∷ names) holds listed good =
      rw
        (
          is_disk.get_value s f (metadata_column path) _ holds listed,
          contains-joined (next ∷ names) (All-found (next ∷ names) good),
        )
        (sym (joined-append next name names))

  store_chunk-Holds :
      (s : S) (f : Columns) (path name chunk : Bytes) (names : List Bytes)
      → Holds s f
      → Listed f path names
      → All IsName names
      → Holds (store_chunk disk s path name chunk) (chunk_stored path name chunk names f)
  unfolding store_chunk
  store_chunk-Holds s f path name chunk names holds listed good =
      let list : Bytes = disk.get s (metadata_column path) in
      let extended : Bytes = if contains not_found list then name else list ++ b',' ∷ name in
      let s1 : S = disk.put s (metadata_column path) extended in
      is_disk.put_holds s1 _ (content_column name) chunk (
        subst (λ v. Holds s1 (set_column (metadata_column path) v f))
          (extended_list s f path name names holds listed good)
          (is_disk.put_holds s f (metadata_column path) extended holds))

  -- What the loop leaves: the chunks under their names, and the list of these.
  pub record Stored (s : S) (f : Columns) (path : Bytes) (i : ℕ) (names added : List Bytes)
      (content : Bytes) : Type 0 where
    pub columns : Columns
    pub holds : Holds s columns
    pub listed : Listed columns path (names ++ added)
    pub all_named : All IsName (names ++ added)
    pub earlier :
        (j : ℕ)
        → j < i
        → columns (content_column (chunk_name path j)) ≡ f (content_column (chunk_name path j))
    pub reads : texts columns added ≡ some content

  none-Stored :
      (s : S) (f : Columns) (path : Bytes) (i : ℕ) (names : List Bytes)
      → Holds s f
      → Listed f path names
      → All IsName names
      → Stored s f path i names [] []
  none-Stored s f path i names holds listed good = record {
    columns = f;
    holds = holds;
    listed = rw (append-nil names) listed;
    all_named = rw (append-nil names) good;
    earlier = λ j before. refl;
    reads = refl;
  }

  pub store_chunks-Stored :
      (fuel size : ℕ) (s : S) (f : Columns) (path : Bytes) (i : ℕ) (names : List Bytes)
      (content : Bytes)
      → 0 < size
      → length content ≤ fuel
      → IsName path
      → Holds s f
      → Listed f path names
      → All IsName names
      → Stored
          (store_chunks disk fuel size s path i content)
          f
          path
          i
          names
          (chunk_names fuel size path i content)
          content
  unfolding store_chunks
  store_chunks-Stored zero size s f path i names [] pos enough good holds listed all =
      none-Stored s f path i names holds listed all
  store_chunks-Stored zero size s f path i names (x ∷ content) pos enough good holds listed all =
      absurd (omega (arith, enough))
  store_chunks-Stored (suc fuel) size s f path i names [] pos enough good holds listed all =
      none-Stored s f path i names holds listed all
  store_chunks-Stored (suc fuel) size s f path i names (x ∷ content) pos enough good holds listed
        all =
      let name : Bytes = chunk_name path i in
      let chunk : Bytes = take size (x ∷ content) in
      let next : Stored _ _ path (suc i) (names ++ name ∷ []) _ (drop size (x ∷ content)) =
        store_chunks-Stored fuel size (store_chunk disk s path name chunk)
          (chunk_stored path name chunk names f) path (suc i) (names ++ name ∷ [])
          (drop size (x ∷ content)) pos (omega (arith, enough, pos, length-drop size (x ∷ content)))
          good (store_chunk-Holds s f path name chunk names holds listed all)
          (Listed-append (chunk_stored path name chunk names f) path name names
            (chunk_stored-list path chunk i names f))
          (All-append IsName names (name ∷ []) all (chunk_name-IsName path i good, tt)) in
      record {
        columns = next.columns;
        holds = next.holds;
        listed =
            subst (λ all_names. Listed next.columns path all_names)
              (append_assoc names (name ∷ []) _) next.listed;
        all_named =
            subst (λ all_names. All IsName all_names) (append_assoc names (name ∷ []) _)
              next.all_named;
        earlier = λ j before.
            next.earlier j (omega (arith, before))
            ∙ chunk_stored-other path chunk i j names f before;
        reads =
            rw
              (
                next.earlier i (omega arith),
                chunk_stored-own path chunk i names f,
                next.reads,
                take-append-drop size (x ∷ content),
              )
              refl;
      }

  pub read_chunks-texts :
      (s : S) (g : Columns) (names : List Bytes) (content : Bytes)
      → Holds s g
      → texts g names ≡ some content
      → read_chunks disk s names ≡ content
  unfolding read_chunks
  read_chunks-texts s g [] content holds e = ground (arith, e)
  read_chunks-texts s g (name ∷ names) content holds e =
      elim (Option-cases (g (content_column name))) [
        | inl missing ↦ ground (arith, e, missing)
        | inr (text, here) ↦ elim (Option-cases (texts g names)) [
          | inl missing ↦ ground (arith, e, here, missing)
          | inr (more, there) ↦
              rw
                (
                  is_disk.get_value s g (content_column name) text holds here,
                  read_chunks-texts s g names more holds there,
                )
                (ground (arith, e, here, there))
        ]
      ]
