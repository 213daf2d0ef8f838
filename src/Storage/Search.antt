-- ===== src/Storage/Search.antt =====
-- A text is in a list of paths only if it is in one of the paths.
use penn_cloud.Prelude.{
  ℕ, Bytes, bytes, bytes_eq, ◌≡◌, refl, sym, ap, ◌∙◌, ◌==◌, false, List, [], ◌∷◌, ◌++◌, append-nil,
  All, arith, IsDigit, begins, contains, cut_text, ◌||◌,
}
use penn_cloud.TextServer.Lines.{Lacks}
use penn_cloud.Storage.Names.{joined, behind}

pub begins-stop :
    (pattern a s : Bytes) (x : ℕ) → Lacks x pattern → begins pattern (a ++ x ∷ s) ≡ begins pattern a
unfolding begins bytes_eq
begins-stop [] a s x h = refl
begins-stop (p ∷ pattern) [] s x h = ground (arith, h.0)
begins-stop (p ∷ pattern) (y ∷ a) s x h = ground (arith, begins-stop pattern a s x h.1)

pub contains-step :
    (pattern s : Bytes) (x : ℕ)
    → contains pattern (x ∷ s) ≡ (begins pattern (x ∷ s) || contains pattern s)
unfolding contains cut_text
contains-step pattern s x = ground arith

begins-differs :
    (p x : ℕ) (pattern s : Bytes) → (p == x) ≡ false → begins (p ∷ pattern) (x ∷ s) ≡ false
unfolding begins bytes_eq
begins-differs p x pattern s h = ground (arith, h)

pub contains-differs :
    (p x : ℕ) (pattern s : Bytes)
    → (p == x) ≡ false
    → contains (p ∷ pattern) (x ∷ s) ≡ contains (p ∷ pattern) s
contains-differs p x pattern s h =
    contains-step (p ∷ pattern) s x ∙ rw (begins-differs p x pattern s h) refl

-- A pattern without the byte `x` stands before or behind it.
pub contains-around :
    (p : ℕ) (pattern a s : Bytes) (x : ℕ)
    → Lacks x (p ∷ pattern)
    → contains (p ∷ pattern) (a ++ x ∷ s) ≡ (contains (p ∷ pattern) a || contains (p ∷ pattern) s)
unfolding contains cut_text
contains-around p pattern [] s x h = contains-differs p x pattern s h.0
contains-around p pattern (y ∷ a) s x h =
    contains-step (p ∷ pattern) (a ++ x ∷ s) y
    ∙ (rw (begins-stop (p ∷ pattern) (y ∷ a) s x h, contains-around p pattern a s x h) ground
          (arith)
        ∙ ap (λ t. t || contains (p ∷ pattern) s) (sym (contains-step (p ∷ pattern) a y)))

abbrev pub not_found : Bytes
not_found = bytes "not found"

not_found-Lacks : Lacks b',' not_found
not_found-Lacks = (refl, (refl, (refl, (refl, (refl, (refl, (refl, (refl, (refl, tt)))))))))

pub contains-digits : (s : Bytes) → All IsDigit s → contains not_found s ≡ false
unfolding contains cut_text
contains-digits [] h = refl
contains-digits (x ∷ s) h =
    contains-differs b'n' x (bytes "ot found") s (ground (arith, h.0.1)) ∙ contains-digits s h.1

pub contains-joined :
    (items : List Bytes)
    → All (λ item. contains not_found item ≡ false) items
    → contains not_found (joined items) ≡ false
unfolding joined behind contains cut_text
contains-joined [] h = refl
contains-joined (item ∷ []) h = rw (append-nil item) h.0
contains-joined (item ∷ next ∷ items) h =
    contains-around b'n' (bytes "ot found") item (next ++ behind items) b',' not_found-Lacks
    ∙ rw (h.0) (contains-joined (next ∷ items) h.1)

not_found-Lacks_dash : Lacks b'-' not_found
not_found-Lacks_dash = (refl, (refl, (refl, (refl, (refl, (refl, (refl, (refl, (refl, tt)))))))))

-- The name of a chunk says so only if its path does.
pub contains-dash :
    (path s : Bytes)
    → contains not_found path ≡ false
    → All IsDigit s
    → contains not_found (path ++ b'-' ∷ s) ≡ false
contains-dash path s h digits =
    contains-around b'n' (bytes "ot found") path s b'-' not_found-Lacks_dash
    ∙ rw h (contains-digits s digits)
