-- ===== src/Email/Decoding/Escaped.antt =====
-- What a browser writes for a text is decoded to the text.
use penn_cloud.Prelude.{
  ℕ, ◌+◌, ◌/◌, ◌%◌, ◌<◌, ◌≡◌, refl, Bytes, Bool, true, false, some, [], ◌∷◌, All, arith, ◌==◌, ltb,
  if◌then◌else◌, inl, inr, Bool-cases, ap, sym, ◌∙◌, ◌≢◌, ==_iff,
}
use penn_cloud.Storage.Names.{stoi_16, hex_digit}
use penn_cloud.Email.Decoding.{hex_value, url_decode}

-- A digit of a hexadecimal number, in upper case.
abbrev pub hex_byte : ℕ → ℕ
hex_byte n = if ltb n 10 then b'0' + n else 55 + n

-- The encoding of a form: a byte that may stand for itself is written as it is, a space as a plus
-- sign and every other byte as a percent sign and its two digits.
unfoldable pub url_encode : (ℕ → Bool) → Bytes → Bytes
url_encode plain [] = []
url_encode plain (x ∷ s) =
    let rest = url_encode plain s in
    if plain x
    then x ∷ rest
    else if x == b' '
    then b'+' ∷ rest
    else b'%' ∷ hex_byte (x / 16) ∷ hex_byte (x % 16) ∷ rest

hex_digit-hex_byte : (n : ℕ) → n < 16 → hex_digit (hex_byte n) ≡ some n
unfolding hex_digit
hex_digit-hex_byte n h = ground arith

hex_byte-x : (n : ℕ) → n < 16 → ((hex_byte n == b'x') ≡ false) × ((hex_byte n == b'X') ≡ false)
hex_byte-x n h = ground arith

hex_value-byte : (x : ℕ) → x < 256 → hex_value (hex_byte (x / 16)) (hex_byte (x % 16)) ≡ some x
unfolding hex_value stoi_16
hex_value-byte x h = ground (
  arith,
  hex_byte-x (x % 16) (omega arith),
  hex_digit-hex_byte (x / 16) (omega (arith, h)),
  hex_digit-hex_byte (x % 16) (omega arith),
)

url_decode-plain :
    (x : ℕ) (s : Bytes)
    → (x == b'%') ≡ false
    → url_decode (x ∷ s) ≡ (if x == b'+' then b' ' else x) ∷ url_decode s
unfolding url_decode
url_decode-plain x [] h = refl
url_decode-plain x (y ∷ []) h = refl
url_decode-plain x (y ∷ z ∷ s) h = ground arith

url_decode-escaped :
    (x : ℕ) (s : Bytes)
    → x < 256
    → url_decode (b'%' ∷ hex_byte (x / 16) ∷ hex_byte (x % 16) ∷ s) ≡ x ∷ url_decode s
unfolding url_decode
url_decode-escaped x s h = ground (arith, hex_value-byte x h)

-- The percent sign and the plus sign do not stand for themselves.
pub record IsPlain (plain : ℕ → Bool) : Type 0 where
  pub percent : plain b'%' ≡ false
  pub plus : plain b'+' ≡ false

pub plain-differs :
    (plain : ℕ → Bool) (x y : ℕ) → plain y ≡ false → plain x ≡ true → (x == y) ≡ false
plain-differs plain x y differs same = elim (Bool-cases (x == y)) [
  | inl e ↦ absurd (true-false (sym same ∙ ap plain ((==_iff x y).0 e) ∙ differs))
  | inr e ↦ e
]
  where
    true-false : true ≢ false
    true-false e = cc

-- What a browser encodes, whichever bytes it writes as they are, is decoded to the text, as long as
-- the percent sign and the plus sign are not among them.
pub url_decode-url_encode :
    (plain : ℕ → Bool) (s : Bytes)
    → IsPlain plain
    → All (λ x. x < 256) s
    → url_decode (url_encode plain s) ≡ s
unfolding url_encode url_decode
url_decode-url_encode plain [] ok h = refl
url_decode-url_encode plain (x ∷ s) ok h = elim (Bool-cases (plain x)) [
  | inl e ↦
      rw
        (
          e,
          url_decode-plain x (url_encode plain s) (plain-differs plain x b'%' ok.percent e),
          plain-differs plain x b'+' ok.plus e,
          url_decode-url_encode plain s ok h.1,
        )
        refl
  | inr e ↦ elim (Bool-cases (x == b' ')) [
    | inl space ↦
        rw
          (
            e,
            space,
            url_decode-plain b'+' (url_encode plain s) refl,
            url_decode-url_encode plain s ok h.1,
          )
          (ap (λ y. y ∷ s) (sym ((==_iff x b' ').0 space)))
    | inr other ↦
        rw
          (
            e,
            other,
            url_decode-escaped x (url_encode plain s) h.0,
            url_decode-url_encode plain s ok h.1,
          )
          refl
  ]
]
