-- ===== src/Email/Decoding/Plain.antt =====
-- Texts of bytes, and which bytes stand in an encoded one.
use penn_cloud.Prelude.{
  ℕ, ◌<◌, ◌/◌, ◌%◌, Bytes, ◌≡◌, refl, Bool, true, false, [], ◌∷◌, All, arith, ◌==◌, ltb, ◌&&◌,
  Bool-cases, inl, inr,
}
use mathlib.Core.List.{reverse_aux}
use penn_cloud.TextServer.Lines.{Lacks}
use penn_cloud.Email.Decoding.Escaped.{plain-differs, url_encode, hex_byte}

abbrev pub AllBytes : Bytes → Type 0
AllBytes s = All (λ x. x < 256) s

pub hex_byte-Lacks : (n : ℕ) → n < 16 → (hex_byte n == b'&') ≡ false
hex_byte-Lacks n h = ground arith

pub url_encode-Lacks :
    (plain : ℕ → Bool) (s : Bytes)
    → plain b'&' ≡ false
    → All (λ x. x < 256) s
    → Lacks b'&' (url_encode plain s)
unfolding url_encode
url_encode-Lacks plain [] amp h = tt
url_encode-Lacks plain (x ∷ s) amp h = elim (Bool-cases (plain x)) [
  | inl e ↦ rw e (plain-differs plain x b'&' amp e, url_encode-Lacks plain s amp h.1)
  | inr e ↦ elim (Bool-cases (x == b' ')) [
    | inl space ↦ rw (e, space) (refl, url_encode-Lacks plain s amp h.1)
    | inr other ↦
        rw (e, other)
          (
            refl,
            (
              hex_byte-Lacks (x / 16) (omega (arith, h.0)),
              (hex_byte-Lacks (x % 16) (omega arith), url_encode-Lacks plain s amp h.1),
            ),
          )
  ]
]

-- A text of bytes, tested.
abbrev pub below : Bytes → Bool
below [] = true
below (x ∷ s) = ltb x 256 && below s

pub below-AllBytes : (s : Bytes) → below s ≡ true → AllBytes s
below-AllBytes [] e = tt
below-AllBytes (x ∷ s) e = (ground (arith, e), below-AllBytes s (ground (arith, e)))

pub reverse_aux-AllBytes :
    (s acc : Bytes) → AllBytes s → AllBytes acc → AllBytes (reverse_aux s acc)
reverse_aux-AllBytes [] acc h more = more
reverse_aux-AllBytes (x ∷ s) acc h more = reverse_aux-AllBytes s (x ∷ acc) h.1 (h.0, more)
