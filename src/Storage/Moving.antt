-- ===== src/Storage/Moving.antt =====
-- A file that is moved keeps its content.
pub mod Apart
use penn_cloud.Prelude.{
  ℕ, zero, suc, ◌≤◌, ◌<◌, Bytes, bytes, bytes_eq_refl, ◌≡◌, ◌≢◌, refl, sym, ap, ◌∙◌, true, false,
  Option, none, some, List, [], ◌∷◌, ◌++◌, append_assoc, All, arith, length, length-append, drop,
  take, take-length-append, drop-length-append, to_string, to_string-IsDigit, IsDigit, ltb,
}
use mathlib.Core.Path.{subst}
use penn_cloud.TextServer.Lines.{Lacks}
use penn_cloud.Storage.Disk.{Disk, Columns, IsDisk, SaysNotFound, set_column, clear_column}
use penn_cloud.Storage.Names.{split_string, joined, metadata_column, content_column}
use penn_cloud.Storage.Lists.{split_string-joined, content-chunk_name}
use penn_cloud.Storage.Files.{chunk_name, read_file}
use penn_cloud.Storage.RoundTrip.{
  IsName, texts, both, bytes_eq-differ, All-no_comma, chunk_name-IsName,
}
use penn_cloud.Storage.Upload.{metadata-content, listed-read}
use penn_cloud.Storage.Tree.{
  file_marker, is_present, suffix_from, move_chunks, move_content, move_whole_file,
}
use penn_cloud.Storage.Moving.Apart.{
  chunk_list, chunk_column, chunk_column-path, suffix_from-append, texts-agree, both-cases,
  chunk_moved, chunk_moved-other, chunk_moved-new, chunk_list-IsName, file_moved, file_moved-other,
  file_moved-list, file_moved-markers, no_chunk,
}

module _ {S : Type 0} (disk : Disk S) (Holds : S → Columns → Type 0) (is_disk : IsDisk disk Holds)
    (says : SaysNotFound disk Holds) where
  -- The chunks under their new names, with their contents; lists and earlier chunks stay.
  record ChunksMoved (end : Option (S × List Bytes)) (f : Columns) (new : Bytes) (i n : ℕ)
      (content : Bytes) : Type 0 where
    pub state : S
    pub columns : Columns
    pub ends : end ≡ some (state, chunk_list new i n)
    pub holds : Holds state columns
    pub reads : texts columns (chunk_list new i n) ≡ some content
    pub earlier : (j : ℕ) → j < i → columns (chunk_column new j) ≡ f (chunk_column new j)

  after_chunk : S → Bytes → Bytes → ℕ → S
  after_chunk s old new i =
      disk.delete (disk.put s (chunk_column new i) (disk.get s (chunk_column old i)))
        (chunk_column old i)

  -- The rest of the chunks, behind one that has a new name.
  abbrev behind_chunk : Bytes → Option (S × List Bytes) → Option (S × List Bytes)
  behind_chunk name none = none
  behind_chunk name (some (s, names)) = some (s, name ∷ names)

  move_chunks-none : (s : S) (old new : Bytes) → move_chunks disk s old new [] ≡ some (s, [])
  unfolding move_chunks
  move_chunks-none s old new = refl

  move_chunks-step :
      (s : S) (old new : Bytes) (i : ℕ) (chunks : List Bytes)
      → move_chunks disk s old new (chunk_name old i ∷ chunks)
        ≡ behind_chunk
            (chunk_name new i)
            (move_chunks disk (after_chunk s old new i) old new chunks)
  unfolding after_chunk chunk_name move_chunks
  move_chunks-step s old new i chunks =
      rw (suffix_from-append old (b'-' ∷ to_string i), move_chunks) refl

  after_chunk-Holds :
      (s : S) (f : Columns) (old new : Bytes) (i : ℕ) (v : Bytes)
      → Holds s f
      → f (chunk_column old i) ≡ some v
      → Holds (after_chunk s old new i) (chunk_moved old new i v f)
  unfolding after_chunk
  after_chunk-Holds s f old new i v holds here =
      rw (is_disk.get_value s f (chunk_column old i) v holds here, after_chunk)
        (is_disk.delete_holds _ (set_column (chunk_column new i) v f) (chunk_column old i)
          (is_disk.put_holds s f (chunk_column new i) v holds))

  move_chunks-ChunksMoved :
      (n i : ℕ) (s : S) (f : Columns) (old new content : Bytes)
      → Holds s f
      → new ≢ old
      → texts f (chunk_list old i n) ≡ some content
      → ChunksMoved (move_chunks disk s old new (chunk_list old i n)) f new i n content
  move_chunks-ChunksMoved zero i s f old new content holds apart e = record {
    state = s;
    columns = f;
    ends = move_chunks-none s old new;
    holds = holds;
    reads = e;
    earlier = λ j before. refl;
  }
  move_chunks-ChunksMoved (suc n) i s f old new content holds apart e =
      let (v, rest, here, there, parts) = both-cases _ _ content e in
      let next =
        move_chunks-ChunksMoved n (suc i) (after_chunk s old new i) (chunk_moved old new i v f) old
          new rest (after_chunk-Holds s f old new i v holds here) apart
          (texts-agree old old n (suc i) (chunk_moved old new i v f) f (λ j later.
              chunk_moved-other old new i v f (chunk_column old j)
                (λ h. omega (arith, later, content-chunk_name old i j h))
                (λ h. apart (chunk_column-path new old i j h)))
            ∙ there) in
      record {
        state = next.state;
        columns = next.columns;
        ends =
            move_chunks-step s old new i (chunk_list old (suc i) n)
            ∙ ap (behind_chunk (chunk_name new i)) next.ends;
        holds = next.holds;
        reads =
            ap (λ o. both o (texts next.columns (chunk_list new (suc i) n)))
              (next.earlier i (omega arith) ∙ chunk_moved-new old new i v f apart)
            ∙ (ap (both (some v)) next.reads ∙ ap some parts);
        earlier = λ j before.
            next.earlier j (omega (arith, before))
            ∙ chunk_moved-other old new i v f (chunk_column new j)
                (λ h. apart (sym (chunk_column-path old new i j h)))
                (λ h. omega (arith, before, content-chunk_name new i j h));
      }

  move_content-step :
      (s s1 : S) (old new : Bytes) (chunks names : List Bytes)
      → is_present (disk.get s (metadata_column old)) ≡ true
      → split_string b',' (disk.get s (metadata_column old)) ≡ chunks
      → move_chunks disk s old new chunks ≡ some (s1, names)
      → move_content disk s old new
        ≡ some
            (disk.delete (disk.put s1 (metadata_column new) (joined names)) (metadata_column old))
  unfolding move_content
  move_content-step s s1 old new chunks names present pieces ends =
      rw (present, pieces, ends, move_content) refl

  move_whole_file-step :
      (s s1 : S) (old new : Bytes)
      → move_content disk s old new ≡ some s1
      → move_whole_file disk s old new ≡ some (disk.delete (disk.put s1 new file_marker) old)
  unfolding move_whole_file
  move_whole_file-step s s1 old new e = rw (e, move_whole_file) refl

  -- On a disk that holds columns, a file that is stored in some chunks is moved to another path:
  -- reading the new path gives the same content, the new path is marked as a file and the old one
  -- is no longer there; if neither path has a comma or a dash or contains the words not found, if
  -- the list of the chunks is not like an error text, and if the error text for a missing column
  -- contains the words not found.
  pub move_whole_file-read_file :
      (s : S) (f : Columns) (old new : Bytes) (n : ℕ) (content : Bytes)
      → Holds s f
      → IsName old
      → IsName new
      → Lacks b'-' old
      → Lacks b'-' new
      → new ≢ old
      → f (metadata_column old) ≡ some (joined (chunk_list old 1 (suc n)))
      → is_present (joined (chunk_list old 1 (suc n))) ≡ true
      → texts f (chunk_list old 1 (suc n)) ≡ some content
      → (s1 : S) × (g : Columns) × (move_whole_file disk s old new ≡ some s1)
        × Holds s1 g
        × (read_file disk s1 new ≡ content)
        × (g new ≡ some file_marker)
        × (g old ≡ none)
  move_whole_file-read_file s f old new n content holds good_old good_new plain_old plain_new apart
        listed present e =
      let names : List Bytes = chunk_list new 1 (suc n) in
      let moved = move_chunks-ChunksMoved (suc n) 1 s f old new content holds apart e in
      let list : Bytes = joined names in
      let g : Columns = moved.columns in
      let g1 : Columns = set_column (metadata_column new) list g in
      let g2 : Columns = clear_column (metadata_column old) g1 in
      let done : Columns = file_moved old new list g in
      let holds1 = is_disk.put_holds _ g (metadata_column new) list moved.holds in
      let holds2 = is_disk.delete_holds _ g1 (metadata_column old) holds1 in
      let holds3 = is_disk.put_holds _ g2 new file_marker holds2 in
      let holds4 = is_disk.delete_holds _ (set_column new file_marker g2) old holds3 in
      let read = is_disk.get_value s f (metadata_column old) _ holds listed in
      let ends =
        move_content-step s moved.state old new (chunk_list old 1 (suc n)) names
          (ap is_present read ∙ present)
          (ap (split_string b',') read
            ∙ split_string-joined (chunk_name old 1) (chunk_list old 2 n) (
                All-no_comma (chunk_list old 1 (suc n)) (chunk_list-IsName old 1 (suc n) good_old)))
          moved.ends in
      let same = texts-agree new new (suc n) 1 done g (λ j h.
        file_moved-other old new list g (chunk_column new j) (no_chunk old new j plain_old)
          (no_chunk new new j plain_new) (metadata-content old (chunk_name new j))
          (metadata-content new (chunk_name new j))) in
      (
        _,
        done,
        move_whole_file-step s _ old new ends,
        holds4,
        listed-read disk Holds is_disk says _ done new (chunk_name new 1) content
            (chunk_list new 2 n) holds4 (file_moved-list old new list g plain_old plain_new apart)
            (chunk_list-IsName new 1 (suc n) good_new) (same ∙ moved.reads),
        (file_moved-markers old new list g apart).0,
        (file_moved-markers old new list g apart).1,
      )
