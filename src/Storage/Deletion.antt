-- ===== src/Storage/Deletion.antt =====
-- Deleting a folder ends, whatever the lists of the folders hold, and leaves nothing that was listed.
pub mod Leftovers
use penn_cloud.Prelude.{
  ℕ, zero, suc, ◌≤◌, ◌<◌, Bytes, bytes, bytes_eq, bytes_eq_iff, bytes_eq_refl, ◌≡◌, ◌≢◌, refl, sym,
  ap, ◌∙◌, true, false, Option, none, some, List, [], ◌∷◌, All, arith, length, length-append,
  if◌then◌else◌, Bool-cases, Option-cases, inl, inr, ◌⊎◌,
}
use mathlib.Core.Path.{subst}
use penn_cloud.Service.{is_err}
use penn_cloud.Storage.Disk.{Disk, Columns, IsDisk, set_column, clear_column}
use penn_cloud.Storage.Names.{split_string, metadata_column, content_column}
use penn_cloud.KeyValue
use penn_cloud.Storage.Files.{is_listed}
use penn_cloud.Storage.RoundTrip.{bytes_eq-differ}
use penn_cloud.Storage.Tree.{
  folder_marker, deleted_marker, file_marker, is_folder, is_present, for_each, delete_chunks,
  delete_file, delete_rec, without_item,
}
use penn_cloud.Storage.Deletion.Leftovers.{
  Left, Gone, FoldersIn, items_in, items_of, Left-refl, Left-trans, clear-Left, mark-Left,
  Left-folder, Left-Gone, without_item-length, is_listed-without_item, marked-metadata,
  items_of-folder, Gone-marked, folder-not_err,
}

module _ {S : Type 0} (disk : Disk S) (Holds : S → Columns → Type 0)
    (is_disk : IsDisk disk Holds) where
  -- The marker that is read is the one that is there.
  folder-read :
      (s : S) (f : Columns) (path : Bytes)
      → Holds s f
      → is_folder (disk.get s path) ≡ true
      → f path ≡ some folder_marker
  folder-read s f path holds e = elim (Option-cases (f path)) [
    | inl missing ↦
        let read : disk.get s path ≡ folder_marker = (bytes_eq_iff _ _).0 e in
        let same = ap is_err read in
        cc (is_disk.get_missing s f path holds missing, same, folder-not_err)
    | inr (v, here) ↦
        here
        ∙ ap some
            (sym (is_disk.get_value s f path v holds here) ∙ (bytes_eq_iff (disk.get s path) _).0 e)
  ]

  folder-marked :
      (s : S) (f : Columns) (path : Bytes)
      → Holds s f
      → is_folder (disk.get s path) ≡ false
      → KeyValue.holds folder_marker (f path) ≡ false
  folder-marked s f path holds e = elim (Option-cases (f path)) [
    | inl missing ↦ rw missing refl
    | inr (v, here) ↦ rw here (ap is_folder (sym (is_disk.get_value s f path v holds here)) ∙ e)
  ]

  -- The state and the columns after some steps, of which no folder is new.
  pub record Ends (end : Option S) (f : Columns) (paths : List Bytes) : Type 0 where
    pub state : S
    pub columns : Columns
    pub ends : end ≡ some state
    pub holds_end : Holds state columns
    pub left : Left f columns
    pub gone : All (Gone columns) paths

  delete_chunks-Left :
      (chunks : List Bytes) (s : S) (f : Columns)
      → Holds s f
      → (g : Columns) × Holds (delete_chunks disk s chunks) g × Left f g
  unfolding delete_chunks
  delete_chunks-Left [] s f holds = (f, holds, Left-refl f)
  delete_chunks-Left (chunk ∷ chunks) s f holds =
      let c : Bytes = content_column chunk in
      let (g, h, left) =
        delete_chunks-Left chunks (disk.delete s c) (clear_column c f)
          (is_disk.delete_holds s f c holds) in
      (g, h, Left-trans f _ g (clear-Left c f) left)

  delete_content-Left :
      (s : S) (f : Columns) (path file_meta : Bytes)
      → Holds s f
      → (g : Columns) × Holds
          (if is_present file_meta
            then disk.delete
                (delete_chunks disk s (split_string b',' file_meta))
                (metadata_column path)
            else s)
          g
        × Left f g
  delete_content-Left s f path file_meta holds = elim (Bool-cases (is_present file_meta)) [
    | inr e ↦ rw e (f, holds, Left-refl f)
    | inl e ↦
        let (g, h, left) = delete_chunks-Left (split_string b',' file_meta) s f holds in
        rw e (
          clear_column (metadata_column path) g,
          is_disk.delete_holds _ g (metadata_column path) h,
          Left-trans f g _ left (clear-Left (metadata_column path) g),
        )
  ]

  cleared-Gone : (path : Bytes) (g : Columns) → Gone (clear_column path g) path
  unfolding clear_column
  cleared-Gone path g = record {
    no_folder = λ e. cc (e, bytes_eq_refl path);
    no_file = λ e. cc (e, bytes_eq_refl path);
  }

  delete_file-Ends :
      (s : S) (f : Columns) (path : Bytes)
      → Holds s f
      → Ends (some (delete_file disk s path)) f (path ∷ [])
  unfolding delete_file
  delete_file-Ends s f path holds =
      let (g, h, left) = delete_content-Left s f path (disk.get s (metadata_column path)) holds in
      let c : Bytes = content_column path in
      let h2 = is_disk.delete_holds _ (clear_column c g) path (is_disk.delete_holds _ g c h) in
      record {
        state = _;
        columns = clear_column path (clear_column c g);
        ends = refl;
        holds_end = h2;
        left = Left-trans f g _ left (
            Left-trans g (clear_column c g) _ (clear-Left c g)
              (clear-Left path (clear_column c g)));
        gone = (cleared-Gone path (clear_column c g), tt);
      }

  -- A loop over paths, each of which ends and is gone afterwards.
  for_each-Ends :
      (step : S → Bytes → Option S) (paths : List Bytes)
      → ((s : S) (f : Columns) (item : Bytes)
          → Holds s f
          → FoldersIn f paths
          → Ends (step s item) f (item ∷ []))
      → (items : List Bytes) (s : S) (f : Columns) → Holds s f
      → FoldersIn f paths
      → Ends (for_each step s items) f items
  for_each-Ends step paths each [] s f holds within = record {
    state = s;
    columns = f;
    ends = refl;
    holds_end = holds;
    left = Left-refl f;
    gone = tt;
  }
  for_each-Ends step paths each (item ∷ items) s f holds within =
      let one = each s f item holds within in
      let more =
        for_each-Ends step paths each items one.state one.columns one.holds_end
          (λ p e. within p (Left-folder f one.columns p one.left e)) in
      record {
        state = more.state;
        columns = more.columns;
        ends =
            ap (λ o. elim o [ none ↦ none | some s1 ↦ for_each step s1 items ]) one.ends
            ∙ more.ends;
        holds_end = more.holds_end;
        left = Left-trans f one.columns more.columns one.left more.left;
        gone = (Left-Gone one.columns more.columns item more.left one.gone.0, more.gone);
      }

  read-items :
      (s : S) (g : Columns) (c : Bytes)
      → Holds s g
      → (if is_present (disk.get s c) then split_string b',' (disk.get s c) else [])
        ≡ items_in (g c)
  unfolding is_present
  read-items s g c holds = elim (Option-cases (g c)) [
    | inl missing ↦ rw missing (ground (arith, is_disk.get_missing s g c holds missing))
    | inr (list, here) ↦ rw (here, is_disk.get_value s g c list holds here) refl
  ]

  children-items :
      (s : S) (f : Columns) (path : Bytes)
      → Holds s f
      → is_folder (disk.get s path) ≡ true
      → (let children : Bytes = disk.get (disk.put s path deleted_marker) (metadata_column path) in
          if is_present children then split_string b',' children else [])
        ≡ items_of f path
  children-items s f path holds e =
      read-items (disk.put s path deleted_marker) (set_column path deleted_marker f)
        (metadata_column path) (is_disk.put_holds s f path deleted_marker holds)
      ∙ (ap items_in (marked-metadata path f)
          ∙ sym (items_of-folder f path (folder-read s f path holds e)))

  marked-Gone :
      (path c : Bytes) (f : Columns) → Gone (clear_column c (set_column path deleted_marker f)) path
  unfolding clear_column set_column
  marked-Gone path c f = Gone-marked _ path (elim (Bool-cases (bytes_eq c path)) [
    | inl e ↦ inl (rw e refl)
    | inr e ↦ inr (rw (e, bytes_eq_refl path) refl)
  ])

  -- The folders that are left are fewer.
  marked-FoldersIn :
      (f : Columns) (path : Bytes) (paths : List Bytes)
      → FoldersIn f paths
      → FoldersIn
          (clear_column (metadata_column path) (set_column path deleted_marker f))
          (without_item path paths)
  marked-FoldersIn f path paths within p e =
      let c : Bytes = metadata_column path in
      let g : Columns = set_column path deleted_marker f in
      let before =
        Left-folder f (clear_column c g) p
          (Left-trans f g (clear_column c g) (mark-Left path f) (clear-Left c g)) e in
      elim (Bool-cases (bytes_eq path p)) [
        | inl same ↦ absurd (
            (marked-Gone path c f).no_folder (
              subst (λ q. clear_column c g q ≡ some folder_marker)
                (sym ((bytes_eq_iff path p).0 same)) e))
        | inr differ ↦ is_listed-without_item p path paths differ (within p before)
      ]

  delete_rec-file :
      (fuel : ℕ) (s : S) (path : Bytes)
      → is_folder (disk.get s path) ≡ false
      → delete_rec disk (suc fuel) s path ≡ some (delete_file disk s path)
  unfolding delete_rec
  delete_rec-file fuel s path e = rw (e, delete_rec) refl

  delete_rec-folder :
      (fuel : ℕ) (s : S) (f : Columns) (path : Bytes)
      → Holds s f
      → is_folder (disk.get s path) ≡ true
      → delete_rec disk (suc fuel) s path
        ≡ for_each
            (delete_rec disk fuel)
            (disk.delete (disk.put s path deleted_marker) (metadata_column path))
            (items_of f path)
  unfolding delete_rec
  delete_rec-folder fuel s f path holds e =
      rw (e, delete_rec) refl
      ∙ ap
          (for_each (delete_rec disk fuel)
            (disk.delete (disk.put s path deleted_marker) (metadata_column path)))
          (children-items s f path holds e)

  first_Ends :
      (end : Option S) (f : Columns) (path : Bytes) (more : List Bytes)
      → Ends end f (path ∷ more)
      → Ends end f (path ∷ [])
  first_Ends end f path more h = record {
    state = h.state;
    columns = h.columns;
    ends = h.ends;
    holds_end = h.holds_end;
    left = h.left;
    gone = (h.gone.0, tt);
  }

  -- Deleting a path ends within one round more than there are folders, also if folders list each
  -- other or themselves. Afterwards neither the path nor what the folder listed is a file or a
  -- folder, and every column is as before, gone, or the marker of a deleted folder.
  pub delete_rec-Ends :
      (fuel : ℕ) (paths : List Bytes) (s : S) (f : Columns) (path : Bytes)
      → Holds s f
      → FoldersIn f paths
      → length paths < fuel
      → Ends (delete_rec disk fuel s path) f (path ∷ items_of f path)
  delete_rec-Ends zero paths s f path holds within enough = absurd (omega (arith, enough))
  delete_rec-Ends (suc fuel) paths s f path holds within enough =
      elim (Bool-cases (is_folder (disk.get s path))) [
        | inr e ↦
            subst (λ (end : Option S). Ends end f (path ∷ items_of f path))
              (sym (delete_rec-file fuel s path e))
              (rw (folder-marked s f path holds e) (delete_file-Ends s f path holds))
        | inl e ↦
            let c : Bytes = metadata_column path in
            let g : Columns = set_column path deleted_marker f in
            let rest : List Bytes = without_item path paths in
            let shorter : length rest < length paths =
              (without_item-length path paths).1 (within path (folder-read s f path holds e)) in
            let marked : Holds (disk.put s path deleted_marker) g =
              is_disk.put_holds s f path deleted_marker holds in
            let each =
              for_each-Ends (delete_rec disk fuel) rest
                (λ t h item holds_t within_t. first_Ends _ h item _ (
                  delete_rec-Ends fuel rest t h item holds_t within_t
                    (omega (arith, shorter, enough))))
                (items_of f path) _ (clear_column c g) (is_disk.delete_holds _ g c marked)
                (marked-FoldersIn f path paths within) in
            record {
              state = each.state;
              columns = each.columns;
              ends = delete_rec-folder fuel s f path holds e ∙ each.ends;
              holds_end = each.holds_end;
              left =
                  Left-trans f (clear_column c g) each.columns
                    (Left-trans f g (clear_column c g) (mark-Left path f) (clear-Left c g))
                    each.left;
              gone = (
                Left-Gone (clear_column c g) each.columns path each.left (marked-Gone path c f),
                each.gone,
              );
            }
      ]
