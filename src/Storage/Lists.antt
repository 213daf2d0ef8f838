-- ===== src/Storage/Lists.antt =====
-- Lists of paths: what is written is read again, and names of chunks stay apart.
use penn_cloud.Prelude.{
  ℕ, Bytes, bytes, ◌≡◌, ◌≢◌, refl, sym, ap, ◌∙◌, List, [], ◌∷◌, ◌++◌, append-nil, append_assoc, All,
  arith, length, drop, drop-length-append, to_string, to_string-injective, to_string-IsDigit,
  IsDigit,
}
use penn_cloud.TextServer.Lines.{Lacks}
use penn_cloud.Storage.Names.{split_string, joined, behind, extend, metadata_column, content_column}
use penn_cloud.Storage.Files.{chunk_name}

split-last : (d : ℕ) (a : Bytes) → Lacks d a → split_string d a ≡ a ∷ []
unfolding split_string extend
split-last d [] h = refl
split-last d (x ∷ a) h = ground (arith, h.0, split-last d a h.1)

split-piece : (d : ℕ) (a s : Bytes) → Lacks d a → split_string d (a ++ d ∷ s) ≡ a ∷ split_string d s
unfolding split_string extend
split-piece d [] s h = ground arith
split-piece d (x ∷ a) s h = ground (arith, h.0, split-piece d a s h.1)

split-behind :
    (item : Bytes) (items : List Bytes)
    → Lacks b',' item
    → All (Lacks b',') items
    → split_string b',' (item ++ behind items) ≡ item ∷ items
unfolding behind
split-behind item [] h more = rw (append-nil item) (split-last b',' item h)
split-behind item (next ∷ items) h more =
    split-piece b',' item (next ++ behind items) h
    ∙ ap (λ rest. item ∷ rest) (split-behind next items more.0 more.1)

-- Paths without commas are read again from the list that holds them.
pub split_string-joined :
    (item : Bytes) (items : List Bytes)
    → All (Lacks b',') (item ∷ items)
    → split_string b',' (joined (item ∷ items)) ≡ item ∷ items
unfolding joined
split_string-joined item items h = split-behind item items h.0 h.1

behind-append :
    (items : List Bytes) (next : Bytes) → behind (items ++ next ∷ []) ≡ behind items ++ b',' ∷ next
unfolding behind
behind-append [] next = rw (append-nil next)
behind-append (item ∷ items) next =
    ap (λ t. b',' ∷ t)
      (ap (λ t. item ++ t) (behind-append items next)
        ∙ sym (append_assoc item (behind items) (b',' ∷ next)))

pub joined-append :
    (item next : Bytes) (items : List Bytes)
    → joined ((item ∷ items) ++ next ∷ []) ≡ joined (item ∷ items) ++ b',' ∷ next
unfolding joined
joined-append item next items =
    ap (λ t. item ++ t) (behind-append items next)
    ∙ sym (append_assoc item (behind items) (b',' ∷ next))

append-cancel : (a b c : Bytes) → a ++ b ≡ a ++ c → b ≡ c
append-cancel a b c e =
    sym (drop-length-append a b) ∙ (ap (drop (length a)) e ∙ drop-length-append a c)

first : Bytes → ℕ
first [] = 0
first (x ∷ s) = x

-- Digits before a dash are determined by the text.
digits-dash :
    (a b s : Bytes) → All IsDigit a → All IsDigit b → a ++ b'-' ∷ s ≡ b ++ b'-' ∷ s → a ≡ b
unfolding first
digits-dash [] [] s ha hb e = refl
digits-dash [] (y ∷ b) s ha hb e = absurd (omega (arith, ap first e, hb.0.0))
digits-dash (x ∷ a) [] s ha hb e = absurd (omega (arith, ap first e, ha.0.0))
digits-dash (x ∷ a) (y ∷ b) s ha hb e =
    let head : x ≡ y = ap first e in
    let tail : a ≡ b = digits-dash a b s ha.1 hb.1 (ap (drop 1) e) in ground (arith, head, tail)

content-suffix :
    (path : Bytes) (i : ℕ)
    → content_column (chunk_name path i) ≡ path ++ (b'-' ∷ (to_string i ++ bytes "-content"))
unfolding chunk_name
content-suffix path i = append_assoc path (b'-' ∷ to_string i) (bytes "-content")

pub content-chunk_name :
    (path : Bytes) (i j : ℕ)
    → content_column (chunk_name path i) ≡ content_column (chunk_name path j)
    → i ≡ j
unfolding chunk_name
content-chunk_name path i j e = to_string-injective i j (
    digits-dash (to_string i) (to_string j) (bytes "content") (to_string-IsDigit i)
      (to_string-IsDigit j)
      (ap (drop 1)
        (append-cancel path _ _ (sym (content-suffix path i) ∙ (e ∙ content-suffix path j)))))

digits-metadata : (a s : Bytes) → All IsDigit a → (a ++ b'-' ∷ s) ≢ bytes "metadata"
unfolding first
digits-metadata [] s h e = absurd (omega (arith, ap first e))
digits-metadata (x ∷ a) s h e = absurd (omega (arith, ap first e, h.0.1))

pub content-metadata :
    (path : Bytes) (i : ℕ) → content_column (chunk_name path i) ≢ metadata_column path
unfolding chunk_name
content-metadata path i e =
    digits-metadata (to_string i) (bytes "content") (to_string-IsDigit i)
      (ap (drop 1) (append-cancel path _ _ (sym (content-suffix path i) ∙ e)))
