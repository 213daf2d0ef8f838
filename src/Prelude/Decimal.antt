-- ===== src/Prelude/Decimal.antt =====
-- `std::to_string` and `std::getline` with a delimiter.
use Prim.Native.Nat.{ℕ, zero, suc, ◌+◌, ◌-◌, ◌*◌, ◌/◌, ◌%◌, ◌≤◌, ◌<◌}
use mathlib.Core.Path.{◌≡◌, sym, ap, ◌∙◌}
use native.Mathlib.Omega.{arith}
use mathlib.Core.Logic.{inl, inr}
use penn_cloud.Prelude.Lists.{All}
use mathlib.Core.List.{List, [], ◌∷◌, ◌++◌}
use mathlib.Core.Bool.{true, false}
use penn_cloud.Prelude.Tests.{ltb, ◌==◌, if◌then◌else◌, Bool-cases}
use penn_cloud.Prelude.Text.{Bytes}

-- The decimal digits of `n` in front of `acc`; there are at most `n` rounds after the first.
unfoldable pub digits : ℕ → ℕ → Bytes → Bytes
digits zero n acc = acc
digits (suc fuel) n acc =
    let more = digits fuel (n / 10) ((48 + n % 10) ∷ acc) in
    if ltb n 10 then (48 + n) ∷ acc else more

unfoldable pub to_string : ℕ → Bytes
unfolding digits
to_string n = digits (suc n) n []

-- The number that decimal digits behind those of `a` stand for.
unfoldable pub value : ℕ → Bytes → ℕ
value a [] = a
value a (x ∷ s) = value (10 * a + (x - 48)) s

pub value-digits : (fuel n : ℕ) (acc : Bytes) → n < fuel → value 0 (digits fuel n acc) ≡ value n acc
unfolding digits value
value-digits zero n acc h = omega (arith, h)
value-digits (suc fuel) n acc h = elim (Bool-cases (ltb n 10)) [
  | inl e ↦ rw e (ap (λ m. value m acc) (omega arith))
  | inr e ↦ rw e (
      value-digits fuel (n / 10) ((48 + n % 10) ∷ acc) (ground (arith, h, e))
      ∙ ap (λ m. value m acc) (omega arith))
]

abbrev pub IsDigit : ℕ → Type 0
IsDigit x = (48 ≤ x) × (x ≤ 57)

pub digits-IsDigit :
    (fuel n : ℕ) (acc : Bytes) → n < fuel → All IsDigit acc → All IsDigit (digits fuel n acc)
unfolding digits
digits-IsDigit zero n acc h more = more
digits-IsDigit (suc fuel) n acc h more = elim (Bool-cases (ltb n 10)) [
  | inl e ↦ rw e ((omega arith, ground (arith, e)), more)
  | inr e ↦
      rw e
        (digits-IsDigit fuel (n / 10) _ (ground (arith, h, e)) ((omega arith, omega arith), more))
]

-- Different numbers have different digits.
pub to_string-injective : (m n : ℕ) → to_string m ≡ to_string n → m ≡ n
unfolding to_string value
to_string-injective m n e =
    sym (value-digits (suc m) m [] (omega arith))
    ∙ (ap (value 0) e ∙ value-digits (suc n) n [] (omega arith))

pub to_string-IsDigit : (n : ℕ) → All IsDigit (to_string n)
unfolding to_string
to_string-IsDigit n = digits-IsDigit (suc n) n [] (omega arith) tt

-- `acc` is what stands before the text since the last delimiter. Behind a last delimiter there
-- is no further piece.
unfoldable pub split_from : ℕ → Bytes → Bytes → List Bytes
split_from d [] [] = []
split_from d (x ∷ acc) [] = (x ∷ acc) ∷ []
split_from d acc (c ∷ s) = elim (c == d) [
  | true ↦ acc ∷ split_from d [] s
  | false ↦ split_from d (acc ++ c ∷ []) s
]

-- All pieces that `while (getline(ss, piece, d))` sees.
unfoldable pub getlines : ℕ → Bytes → List Bytes
unfolding split_from
getlines d s = split_from d [] s
