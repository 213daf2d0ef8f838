-- ===== src/Http/Sessions/Cookies.antt =====
-- The number of a session in the cookie of a request.
use penn_cloud.Prelude.{
  ℕ, Bytes, bytes, bytes_eq, bytes_eq_refl, ◌≡◌, refl, ap, ◌∙◌, false, true, Option, none, some, [],
  ◌∷◌, ◌++◌, All, arith, ◌==◌, ◌&&◌, IsDigit, to_string, to_string-IsDigit, begins, contains,
  cut_text, take-length-append, drop-length-append, ◌⊎◌, inl, inr, ◌<◌, Option-cases,
}
use penn_cloud.TextServer.{cut}
use penn_cloud.TextServer.Lines.{Lacks, cut-append}
use penn_cloud.Metadata.Query.{cut-Lacks}
use penn_cloud.Storage.Search.{begins-stop, contains-step}
use penn_cloud.Http.Headers.{before, extract_session_id}

-- A pattern is found at its first place, if its first byte does not stand in it again.
begins-behind :
    (p x : ℕ) (pattern h s : Bytes)
    → Lacks p pattern
    → begins (p ∷ pattern) (x ∷ h ++ p ∷ s) ≡ begins (p ∷ pattern) (x ∷ h)
unfolding begins bytes_eq
begins-behind p x pattern h s lacks = ap (λ b. x == p && b) (begins-stop pattern h s p lacks)

begins-itself : (pattern t : Bytes) → begins pattern (pattern ++ t) ≡ true
unfolding begins
begins-itself pattern t = rw (take-length-append pattern t) (bytes_eq_refl pattern)

contains-parts :
    (pattern h : Bytes) (x : ℕ)
    → contains pattern (x ∷ h) ≡ false
    → (begins pattern (x ∷ h) ≡ false) × (contains pattern h ≡ false)
contains-parts pattern h x e = ground (arith, contains-step pattern h x, e)

cut_text-step :
    (pattern s : Bytes) (x : ℕ)
    → begins pattern (x ∷ s) ≡ false
    → cut_text pattern (x ∷ s)
      ≡ elim (cut_text pattern s) [ none ↦ none | some (front, after) ↦ some (x ∷ front, after) ]
unfolding cut_text
cut_text-step pattern s x e = rw (e, cut_text) refl

cut_text-first :
    (p : ℕ) (pattern head t : Bytes)
    → Lacks p pattern
    → contains (p ∷ pattern) head ≡ false
    → cut_text (p ∷ pattern) (head ++ (p ∷ pattern ++ t)) ≡ some (head, t)
unfolding cut_text
cut_text-first p pattern [] t lacks e =
    rw (begins-itself (p ∷ pattern) t, drop-length-append (p ∷ pattern) t, cut_text) refl
cut_text-first p pattern (x ∷ head) t lacks e =
    let (not_here, not_there) = contains-parts (p ∷ pattern) head x e in
    cut_text-step (p ∷ pattern) (head ++ (p ∷ pattern ++ t)) x
      (begins-behind p x pattern head (pattern ++ t) lacks ∙ not_here)
    ∙ ap
        (λ (o : Option (Bytes × Bytes)). elim o [
          | none ↦ none
          | some (front, after) ↦ some (x ∷ front, after)
        ])
        (cut_text-first p pattern head t lacks not_there)

begins-other :
    (p x : ℕ) (pattern s : Bytes) → (x == p) ≡ false → begins (p ∷ pattern) (x ∷ s) ≡ false
unfolding begins bytes_eq
begins-other p x pattern s h = ground (arith, h)

-- The same behind a text without the first byte of the pattern.
cut_text-behind :
    (p : ℕ) (pattern head t : Bytes)
    → Lacks p head
    → cut_text (p ∷ pattern) (head ++ (p ∷ pattern ++ t)) ≡ some (head, t)
unfolding cut_text
cut_text-behind p pattern [] t lacks =
    rw (begins-itself (p ∷ pattern) t, drop-length-append (p ∷ pattern) t, cut_text) refl
cut_text-behind p pattern (x ∷ head) t lacks =
    cut_text-step (p ∷ pattern) (head ++ (p ∷ pattern ++ t)) x
      (begins-other p x pattern (head ++ (p ∷ pattern ++ t)) lacks.0)
    ∙ ap
        (λ (o : Option (Bytes × Bytes)). elim o [
          | none ↦ none
          | some (front, after) ↦ some (x ∷ front, after)
        ])
        (cut_text-behind p pattern head t lacks.1)

digits-Lacks : (d : ℕ) (s : Bytes) → 57 < d → All IsDigit s → Lacks d s
digits-Lacks d [] h digits = tt
digits-Lacks d (x ∷ s) h digits = (ground (arith, h, digits.0), digits-Lacks d s h digits.1)

digits-Lacks_cr : (s : Bytes) → All IsDigit s → Lacks 13 s
digits-Lacks_cr [] digits = tt
digits-Lacks_cr (x ∷ s) digits = (ground (arith, digits.0), digits-Lacks_cr s digits.1)

before-append : (d : ℕ) (a s : Bytes) → Lacks d a → before d (a ++ d ∷ s) ≡ a
unfolding before
before-append d a s h = rw (cut-append d a s h, before) refl

before-Lacks : (d : ℕ) (a : Bytes) → Lacks d a → before d a ≡ a
unfolding before
before-Lacks d a h = rw (cut-Lacks d a h, before) refl

before-step : (d x : ℕ) (s : Bytes) → (x == d) ≡ false → before d (x ∷ s) ≡ x ∷ before d s
unfolding before cut
before-step d x s h = elim (Option-cases (cut d s)) [
  | inl e ↦ ground (arith, h, e)
  | inr ((front, after), e) ↦ ground (arith, h, e)
]

-- Up to a semicolon, and up to the end of the line.
before-prefix : (d : ℕ) (a s : Bytes) → Lacks d a → before d (a ++ s) ≡ a ++ before d s
before-prefix d [] s h = refl
before-prefix d (x ∷ a) s h = before-step d x (a ++ s) h.0 ∙ ap (◌∷◌ x) (before-prefix d a s h.1)

cookie-end :
    (sid rest : Bytes) (d : ℕ)
    → Lacks b';' sid
    → Lacks 13 sid
    → (d ≡ b';') ⊎ (d ≡ 13)
    → before 13 (before b';' (sid ++ d ∷ rest)) ≡ sid
cookie-end sid rest d no_semicolon no_cr (inl e) =
    rw (e, before-append b';' sid rest no_semicolon) (before-Lacks 13 sid no_cr)
cookie-end sid rest d no_semicolon no_cr (inr e) =
    rw (e, before-prefix b';' sid (13 ∷ rest) no_semicolon, before-step b';' 13 rest refl)
      (before-append 13 sid (before b';' rest) no_cr)

-- The number of a session is read from the first session_id= behind the first Cookie: of a request,
-- up to a semicolon or the end of the line, whatever stands around it, as long as the letter s does
-- not stand between the two.
pub extract_session_id-to_string :
    (head others rest : Bytes) (d n : ℕ)
    → contains (bytes "Cookie:") head ≡ false
    → Lacks b's' others
    → (d ≡ b';') ⊎ (d ≡ 13)
    → extract_session_id (
        head ++ (bytes "Cookie:" ++ (others ++ (bytes "session_id=" ++ (to_string n ++ d ∷ rest)))))
      ≡ to_string n
unfolding extract_session_id
extract_session_id-to_string head others rest d n first plain end =
    let digits = to_string-IsDigit n in
    let tail : Bytes = to_string n ++ d ∷ rest in
    rw
      (
        cut_text-first b'C' (bytes "ookie:") head (others ++ (bytes "session_id=" ++ tail))
            (refl, (refl, (refl, (refl, (refl, (refl, tt)))))) first,
        cut_text-behind b's' (bytes "ession_id=") others tail plain,
        extract_session_id,
      )
      (cookie-end (to_string n) rest d (digits-Lacks b';' (to_string n) (omega arith) digits)
        (digits-Lacks_cr (to_string n) digits) end)
