-- ===== src/Storage/Deletion/Leftovers.antt =====
-- What deletions leave of the columns of a row, and the folders among them.
use penn_cloud.Prelude.{
  ◌≤◌, ◌<◌, Bytes, bytes, bytes_eq, bytes_eq_iff, bytes_eq_refl, ◌≡◌, ◌≢◌, refl, sym, ap, ◌∙◌, true,
  false, Option, none, some, List, [], ◌∷◌, arith, length, length-append, if◌then◌else◌, Bool-cases,
  inl, inr, ◌⊎◌,
}
use penn_cloud.Service.{is_err}
use penn_cloud.Storage.Disk.{Columns, set_column, clear_column}
use penn_cloud.Storage.Names.{split_string, metadata_column}
use penn_cloud.KeyValue
use penn_cloud.Storage.Files.{is_listed}
use penn_cloud.Storage.RoundTrip.{bytes_eq-differ}
use penn_cloud.Storage.Tree.{folder_marker, deleted_marker, file_marker, is_present, without_item}

-- After some deletions a column is as before, or gone, or marks a deleted folder.
abbrev pub Left : Columns → Columns → Type 0
Left f g = (c : Bytes) → (g c ≡ f c) ⊎ ((g c ≡ none) ⊎ (g c ≡ some deleted_marker))

-- Neither a folder nor a file.
pub record Gone (g : Columns) (path : Bytes) : Type 0 where
  pub no_folder : g path ≢ some folder_marker
  pub no_file : g path ≢ some file_marker

-- Every folder is one of these paths.
abbrev pub FoldersIn : Columns → List Bytes → Type 0
FoldersIn f paths = (path : Bytes) → f path ≡ some folder_marker → is_listed path paths ≡ true

-- The items that a list holds; an error text is no list.
abbrev pub items_in : Option Bytes → List Bytes
items_in none = []
items_in (some list) = if is_present list then split_string b',' list else []

-- What a folder lists.
abbrev pub items_of : Columns → Bytes → List Bytes
items_of f path =
    if KeyValue.holds folder_marker (f path) then items_in (f (metadata_column path)) else []

pub Left-refl : (f : Columns) → Left f f
Left-refl f c = inl refl

pub Left-trans : (f g h : Columns) → Left f g → Left g h → Left f h
Left-trans f g h first next c = go (first c) (next c)
  where
    go :
        (g c ≡ f c) ⊎ ((g c ≡ none) ⊎ (g c ≡ some deleted_marker))
        → (h c ≡ g c) ⊎ ((h c ≡ none) ⊎ (h c ≡ some deleted_marker))
        → (h c ≡ f c) ⊎ ((h c ≡ none) ⊎ (h c ≡ some deleted_marker))
    go a (inr b) = inr b
    go (inl a) (inl b) = inl (b ∙ a)
    go (inr (inl a)) (inl b) = inr (inl (b ∙ a))
    go (inr (inr a)) (inl b) = inr (inr (b ∙ a))

pub clear-Left : (c : Bytes) (f : Columns) → Left f (clear_column c f)
unfolding clear_column
clear-Left c f d = elim (Bool-cases (bytes_eq c d)) [
  | inl e ↦ inr (inl (rw e refl))
  | inr e ↦ inl (rw e refl)
]

pub mark-Left : (path : Bytes) (f : Columns) → Left f (set_column path deleted_marker f)
unfolding set_column
mark-Left path f d = elim (Bool-cases (bytes_eq path d)) [
  | inl e ↦ inr (inr (rw e refl))
  | inr e ↦ inl (rw e refl)
]

some_folder : some deleted_marker ≢ some folder_marker
some_folder e = cc

some_file : some deleted_marker ≢ some file_marker
some_file e = cc

-- What is no longer there stays so, and no folder appears.
pub Left-folder :
    (f g : Columns) (path : Bytes)
    → Left f g
    → g path ≡ some folder_marker
    → f path ≡ some folder_marker
Left-folder f g path left e = elim (left path) [
  | inl same ↦ sym same ∙ e
  | inr (inl none_left) ↦ cc
  | inr (inr marked) ↦ absurd (some_folder (sym marked ∙ e))
]

Left-file :
    (f g : Columns) (path : Bytes)
    → Left f g
    → g path ≡ some file_marker
    → f path ≡ some file_marker
Left-file f g path left e = elim (left path) [
  | inl same ↦ sym same ∙ e
  | inr (inl none_left) ↦ cc
  | inr (inr marked) ↦ absurd (some_file (sym marked ∙ e))
]

pub Left-Gone : (f g : Columns) (path : Bytes) → Left f g → Gone f path → Gone g path
Left-Gone f g path left gone = record {
  no_folder = λ e. gone.no_folder (Left-folder f g path left e);
  no_file = λ e. gone.no_file (Left-file f g path left e);
}

pub without_item-length :
    (path : Bytes) (paths : List Bytes)
    → (length (without_item path paths) ≤ length paths)
      × (is_listed path paths ≡ true → length (without_item path paths) < length paths)
unfolding without_item is_listed
without_item-length path [] = (omega arith, λ e. cc)
without_item-length path (x ∷ paths) = ground (arith, without_item-length path paths)

pub is_listed-without_item :
    (p path : Bytes) (paths : List Bytes)
    → bytes_eq path p ≡ false
    → is_listed p paths ≡ true
    → is_listed p (without_item path paths) ≡ true
unfolding without_item is_listed
is_listed-without_item p path [] differ e = e
is_listed-without_item p path (x ∷ paths) differ e =
    ground (arith, e, differ, bytes_eq_iff x path, is_listed-without_item p path paths differ)

path-metadata : (path : Bytes) → bytes_eq path (metadata_column path) ≡ false
path-metadata path =
    bytes_eq-differ path (metadata_column path)
      (λ e. omega (arith, ap (λ t. length t) e, length-append path (bytes "-metadata")))

pub marked-metadata :
    (path : Bytes) (f : Columns)
    → set_column path deleted_marker f (metadata_column path) ≡ f (metadata_column path)
unfolding set_column
marked-metadata path f = rw (path-metadata path) refl

pub items_of-folder :
    (f : Columns) (path : Bytes)
    → f path ≡ some folder_marker
    → items_of f path ≡ items_in (f (metadata_column path))
items_of-folder f path e =
    ap (λ o. if KeyValue.holds folder_marker o then items_in (f (metadata_column path)) else []) e
    ∙ rw (bytes_eq_refl folder_marker) refl

pub Gone-marked :
    (g : Columns) (path : Bytes) → (g path ≡ none) ⊎ (g path ≡ some deleted_marker) → Gone g path
Gone-marked g path (inl e) = record { no_folder = λ h. cc; no_file = λ h. cc }
Gone-marked g path (inr e) = record {
  no_folder = λ h. some_folder (sym e ∙ h);
  no_file = λ h. some_file (sym e ∙ h);
}

pub folder-not_err : is_err folder_marker ≡ false
unfolding is_err bytes_eq
folder-not_err = refl
