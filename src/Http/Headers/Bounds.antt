-- ===== src/Http/Headers/Bounds.antt =====
-- How much of a request's body is kept.
use penn_cloud.Prelude.{
  ℕ, ◌+◌, ◌≤◌, ◌<◌, Bytes, ◌≡◌, refl, ap, Option, none, some, List, [], ◌∷◌, ◌++◌, All, arith,
  length, length-append, length-drop, ltb, if◌then◌else◌, cut_text, inl, inr, Bool-cases,
  Option-cases, begins,
}
use Prim.Native.Nat.{max}
use mathlib.Core.Path.{subst}
use penn_cloud.TextServer.{crlf}
use penn_cloud.Storage.Requests.{body_start}
use penn_cloud.Http.Headers.{read_request_body, read_up_to, max_body_size}

-- The buffer of one read.
abbrev pub read_size : ℕ
read_size = 8192

read_up_to-bound :
    (wanted : ℕ) (body : Bytes) (reads : List Bytes)
    → All (λ piece. length piece ≤ read_size) reads
    → length (read_up_to wanted body reads) ≤ max (length body) (wanted + read_size)
unfolding read_up_to
read_up_to-bound wanted body [] h = omega arith
read_up_to-bound wanted body (piece ∷ reads) h = elim (Bool-cases (ltb (length body) wanted)) [
  | inr e ↦ rw e (omega arith)
  | inl e ↦
      let below : length body < wanted = ground (arith, e) in
      rw e (
        omega (
          arith,
          below,
          h.0,
          length-append body piece,
          read_up_to-bound wanted (body ++ piece) reads h.1,
        ))
]

-- The length of what stands behind a pattern.
abbrev after_length : Option (Bytes × Bytes) → ℕ
after_length none = 0
after_length (some (front, after)) = length after

after_length-cons :
    (x : ℕ) (found : Option (Bytes × Bytes))
    → after_length (elim found [ none ↦ none | some (front, after) ↦ some (x ∷ front, after) ])
      ≡ after_length found
after_length-cons x none = refl
after_length-cons x (some (front, after)) = refl

cut_text-length : (pattern s : Bytes) → after_length (cut_text pattern s) ≤ length s
unfolding cut_text
cut_text-length pattern [] = omega arith
cut_text-length pattern (x ∷ s) = elim (Bool-cases (begins pattern (x ∷ s))) [
  | inl here ↦ rw (here, cut_text) (omega (arith, length-drop (length pattern) (x ∷ s)))
  | inr later ↦
      rw (later, cut_text)
        (omega (arith, after_length-cons x (cut_text pattern s), cut_text-length pattern s))
]

body_start-length : (request : Bytes) → length (body_start request) ≤ length request
unfolding body_start
body_start-length request = elim (Option-cases (cut_text (crlf ++ crlf) request)) [
  | inl e ↦ rw (e, body_start) (omega (arith, length-drop 3 request))
  | inr ((head, body), e) ↦
      rw (e, body_start)
        (subst (λ found. after_length found ≤ length request) e
          (cut_text-length (crlf ++ crlf) request))
]

-- The value of an option, or another one.
abbrev kept_or : Bytes → Option Bytes → Bytes
kept_or other none = other
kept_or other (some body) = body

kept-bound :
    (announced : Option ℕ) (request body : Bytes) (reads : List Bytes)
    → All (λ piece. length piece ≤ read_size) reads
    → elim announced [
      | none ↦ none
      | some n ↦
          some (
            read_up_to
              (if ltb max_body_size n then max_body_size else n)
              (body_start request)
              reads)
    ]
      ≡ some body
    → length body ≤ max (length request) (max_body_size + read_size)
kept-bound none request body reads h e = cc
kept-bound (some n) request body reads h e =
    let wanted : ℕ = if ltb max_body_size n then max_body_size else n in
    let small : wanted ≤ max_body_size = ground arith in
    let kept : read_up_to wanted (body_start request) reads ≡ body = ap (kept_or body) e in
    omega (
      arith,
      small,
      ap length kept,
      read_up_to-bound wanted (body_start request) reads h,
      body_start-length request,
    )

-- Whatever length a request announces, the body that is kept is no longer than the request that it
-- came with, or than two megabytes and one read, if a read gives no more than its buffer holds.
pub read_request_body-bound :
    (request body : Bytes) (reads : List Bytes)
    → All (λ piece. length piece ≤ read_size) reads
    → read_request_body request reads ≡ some body
    → length body ≤ max (length request) (max_body_size + read_size)
unfolding read_request_body
read_request_body-bound request body reads h e = kept-bound _ request body reads h e
