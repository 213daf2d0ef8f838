-- ===== src/Storage/Moving/Apart.antt =====
-- The columns of two files stay apart, and what a moved file changes.
use penn_cloud.Prelude.{
  ℕ, zero, suc, ◌≤◌, Bytes, bytes, bytes_eq_refl, ◌≡◌, ◌≢◌, refl, sym, ap, ◌∙◌, false, Option, none,
  some, List, [], ◌∷◌, ◌++◌, append_assoc, All, arith, length, length-append, drop, take,
  take-length-append, drop-length-append, to_string, to_string-IsDigit, IsDigit, ltb,
}
use mathlib.Core.Path.{subst}
use penn_cloud.TextServer.Lines.{Lacks}
use penn_cloud.Storage.Disk.{Columns, set_column, clear_column}
use penn_cloud.Storage.Names.{metadata_column, content_column}
use penn_cloud.Storage.Files.{chunk_name}
use penn_cloud.Storage.RoundTrip.{IsName, texts, both, bytes_eq-differ, chunk_name-IsName}
use penn_cloud.Storage.Tree.{file_marker, suffix_from}

-- The names of `n` chunks, from a number on.
abbrev pub chunk_list : Bytes → ℕ → ℕ → List Bytes
chunk_list path i zero = []
chunk_list path i (suc n) = chunk_name path i ∷ chunk_list path (suc i) n

abbrev pub chunk_column : Bytes → ℕ → Bytes
chunk_column path i = content_column (chunk_name path i)

digits-no_dash : (a s : Bytes) → All IsDigit (a ++ b'-' ∷ s) → ⊥
digits-no_dash [] s h = omega (arith, h.0.0)
digits-no_dash (x ∷ a) s h = digits-no_dash a s h.1

first : Bytes → ℕ
first [] = 0
first (x ∷ s) = x

dash-cancel :
    (a b d e : Bytes) → All IsDigit d → All IsDigit e → a ++ b'-' ∷ d ≡ b ++ b'-' ∷ e → a ≡ b
unfolding first
dash-cancel [] [] d e hd he h = refl
dash-cancel [] (y ∷ b) d e hd he h =
    absurd (digits-no_dash b e (subst (λ t. All IsDigit t) (ap (drop 1) h) hd))
dash-cancel (x ∷ a) [] d e hd he h =
    absurd (digits-no_dash a d (subst (λ t. All IsDigit t) (sym (ap (drop 1) h)) he))
dash-cancel (x ∷ a) (y ∷ b) d e hd he h =
    let head : x ≡ y = ap first h in
    let tail : a ≡ b = dash-cancel a b d e hd he (ap (drop 1) h) in ground (arith, head, tail)

suffix-cancel : (a b s : Bytes) → a ++ s ≡ b ++ s → a ≡ b
suffix-cancel a b s h =
    let same : length a ≡ length b =
      omega (arith, ap (λ t. length t) h, length-append a s, length-append b s) in
    sym (take-length-append a s)
    ∙ (ap (take (length a)) h ∙ (ap (λ n. take n (b ++ s)) same ∙ take-length-append b s))

pub chunk_column-path : (a b : Bytes) (i j : ℕ) → chunk_column a i ≡ chunk_column b j → a ≡ b
unfolding chunk_name
chunk_column-path a b i j h =
    dash-cancel a b (to_string i) (to_string j) (to_string-IsDigit i) (to_string-IsDigit j)
      (suffix-cancel _ _ (bytes "-content") h)

-- A name without dashes is neither the column of a list nor that of a chunk.
no_dash : (a b s : Bytes) → Lacks b'-' a → a ≢ b ++ b'-' ∷ s
unfolding first
no_dash [] [] s h e = cc
no_dash [] (y ∷ b) s h e = cc
no_dash (x ∷ a) [] s h e = ground (arith, ap first e, h.0)
no_dash (x ∷ a) (y ∷ b) s h e = no_dash a b s h.1 (ap (drop 1) e)

pub suffix_from-append : (a b : Bytes) → suffix_from (length a) (a ++ b) ≡ some b
unfolding suffix_from
suffix_from-append a b =
    let not_shorter : ltb (length (a ++ b)) (length a) ≡ false =
      ground (arith, length-append a b) in
    rw (not_shorter, drop-length-append a b) refl

suffix_from-chunk :
    (path : Bytes) (i : ℕ)
    → suffix_from (length path) (chunk_name path i) ≡ some (b'-' ∷ to_string i)
unfolding chunk_name
suffix_from-chunk path i = suffix_from-append path (b'-' ∷ to_string i)

-- Lists of chunks whose columns agree.
pub texts-agree :
    (path other : Bytes) (n i : ℕ) (f g : Columns)
    → ((j : ℕ) → i ≤ j → f (chunk_column path j) ≡ g (chunk_column other j))
    → texts f (chunk_list path i n) ≡ texts g (chunk_list other i n)
texts-agree path other zero i f g same = refl
texts-agree path other (suc n) i f g same =
    ap (λ o. both o (texts f (chunk_list path (suc i) n))) (same i (omega arith))
    ∙ ap (both (g (chunk_column other i)))
        (texts-agree path other n (suc i) f g (λ j h. same j (omega (arith, h))))

pub both-cases :
    (one more : Option Bytes) (content : Bytes)
    → both one more ≡ some content
    → (v : Bytes) × (rest : Bytes) × (one ≡ some v) × (more ≡ some rest) × (v ++ rest ≡ content)
both-cases none more content e = cc
both-cases (some v) none content e = cc
both-cases (some v) (some rest) content e = (v, rest, refl, refl, ground (arith, e))

-- The columns after one chunk.
abbrev pub chunk_moved : Bytes → Bytes → ℕ → Bytes → Columns → Columns
chunk_moved old new i v f = clear_column (chunk_column old i) (set_column (chunk_column new i) v f)

pub chunk_moved-other :
    (old new : Bytes) (i : ℕ) (v : Bytes) (f : Columns) (c : Bytes)
    → chunk_column old i ≢ c
    → chunk_column new i ≢ c
    → chunk_moved old new i v f c ≡ f c
unfolding set_column clear_column
chunk_moved-other old new i v f c no_old no_new =
    rw (bytes_eq-differ _ c no_old, bytes_eq-differ _ c no_new) refl

pub chunk_moved-new :
    (old new : Bytes) (i : ℕ) (v : Bytes) (f : Columns)
    → new ≢ old
    → chunk_moved old new i v f (chunk_column new i) ≡ some v
unfolding set_column clear_column
chunk_moved-new old new i v f apart =
    rw
      (
        bytes_eq-differ (chunk_column old i) (chunk_column new i)
            (λ e. apart (sym (chunk_column-path old new i i e))),
        bytes_eq_refl (chunk_column new i),
      )
      refl

pub chunk_list-IsName : (path : Bytes) (i n : ℕ) → IsName path → All IsName (chunk_list path i n)
chunk_list-IsName path i zero good = tt
chunk_list-IsName path i (suc n) good =
    (chunk_name-IsName path i good, chunk_list-IsName path (suc i) n good)

-- The columns after the list and the marker.
abbrev pub file_moved : Bytes → Bytes → Bytes → Columns → Columns
file_moved old new list g = clear_column old (
    set_column new file_marker
      (clear_column (metadata_column old) (set_column (metadata_column new) list g)))

pub file_moved-other :
    (old new list : Bytes) (g : Columns) (c : Bytes)
    → old ≢ c
    → new ≢ c
    → metadata_column old ≢ c
    → metadata_column new ≢ c
    → file_moved old new list g c ≡ g c
unfolding set_column clear_column
file_moved-other old new list g c no_old no_new no_old_list no_new_list =
    rw
      (
        bytes_eq-differ old c no_old,
        bytes_eq-differ new c no_new,
        bytes_eq-differ (metadata_column old) c no_old_list,
        bytes_eq-differ (metadata_column new) c no_new_list,
      )
      refl

pub file_moved-list :
    (old new list : Bytes) (g : Columns)
    → Lacks b'-' old
    → Lacks b'-' new
    → new ≢ old
    → file_moved old new list g (metadata_column new) ≡ some list
unfolding set_column clear_column
file_moved-list old new list g plain_old plain_new apart =
    rw
      (
        bytes_eq-differ old (metadata_column new) (no_dash old new (bytes "metadata") plain_old),
        bytes_eq-differ new (metadata_column new) (no_dash new new (bytes "metadata") plain_new),
        bytes_eq-differ (metadata_column old) (metadata_column new)
            (λ e. apart (sym (suffix-cancel old new (bytes "-metadata") e))),
        bytes_eq_refl (metadata_column new),
      )
      refl

pub file_moved-markers :
    (old new list : Bytes) (g : Columns)
    → new ≢ old
    → (file_moved old new list g new ≡ some file_marker) × (file_moved old new list g old ≡ none)
unfolding set_column clear_column
file_moved-markers old new list g apart = (
  rw (bytes_eq-differ old new (λ e. apart (sym e)), bytes_eq_refl new) refl,
  rw (bytes_eq_refl old) refl,
)

-- A name without dashes is not the column of a chunk.
pub no_chunk : (a path : Bytes) (i : ℕ) → Lacks b'-' a → a ≢ chunk_column path i
unfolding chunk_name
no_chunk a path i plain e =
    no_dash a path (to_string i ++ bytes "-content") plain
      (e ∙ append_assoc path (b'-' ∷ to_string i) (bytes "-content"))
