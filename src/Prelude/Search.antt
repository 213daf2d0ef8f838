-- ===== src/Prelude/Search.antt =====
-- `find`, `substr` and the trimming of white space on strings.
use Prim.Native.Nat.{ℕ, ◌-◌}
use mathlib.Core.Bool.{Bool, true, false, ◌||◌, ◌&&◌}
use mathlib.Core.Option.{Option, none, some}
use mathlib.Core.List.{List, [], ◌∷◌, ◌++◌, reverse}
use penn_cloud.Prelude.Tests.{◌==◌, leb, if◌then◌else◌}
use penn_cloud.Prelude.Lists.{length, take, drop}
use penn_cloud.Prelude.Text.{Bytes, bytes_eq}

-- `text.find(pattern) == 0`
unfoldable pub begins : Bytes → Bytes → Bool
begins pattern text = bytes_eq (take (length pattern) text) pattern

-- The text before the first place of a pattern, and the text behind it. The pattern is not empty.
unfoldable pub cut_text : Bytes → Bytes → Option (Bytes × Bytes)
unfolding begins
cut_text pattern [] = none
cut_text pattern (x ∷ s) =
    let rest = cut_text pattern s in
    if begins pattern (x ∷ s)
    then some ([], drop (length pattern) (x ∷ s))
    else elim rest [ none ↦ none | some (before, after) ↦ some (x ∷ before, after) ]

abbrev pub is_some {ℓ} : {A : Type ℓ} → Option A → Bool
is_some none = false
is_some (some a) = true

-- `text.find(pattern) != string::npos`
unfoldable pub contains : Bytes → Bytes → Bool
unfolding cut_text
contains pattern text = is_some (cut_text pattern text)

-- Space, tab, line feed, vertical tab, form feed and carriage return.
unfoldable pub is_space : ℕ → Bool
is_space x = x == 32 || (leb 9 x && leb x 13)

unfoldable pub skip_spaces : Bytes → Bytes
unfolding is_space
skip_spaces [] = []
skip_spaces (x ∷ s) = let rest = skip_spaces s in if is_space x then rest else x ∷ s

unfoldable pub trim : Bytes → Bytes
unfolding skip_spaces
trim s = reverse (skip_spaces (reverse (skip_spaces s)))

-- The pieces of a page, one behind the other.
unfoldable pub text_of : List Bytes → Bytes
text_of [] = []
text_of (piece ∷ pieces) = piece ++ text_of pieces

-- Everything but one byte.
unfoldable pub remove_byte : ℕ → Bytes → Bytes
remove_byte d [] = []
remove_byte d (x ∷ s) = let rest = remove_byte d s in if x == d then rest else x ∷ rest

-- `toupper` on every byte.
unfoldable pub to_upper : Bytes → Bytes
to_upper [] = []
to_upper (x ∷ s) = (if leb 97 x && leb x 122 then x - 32 else x) ∷ to_upper s

-- The text behind the last `d`, and the text before it where there is one.
unfoldable pub cut_last : ℕ → Bytes → Option (Bytes × Bytes)
cut_last d [] = none
cut_last d (x ∷ s) = elim (cut_last d s) [
  | some (before, after) ↦ some (x ∷ before, after)
  | none ↦ if x == d then some ([], s) else none
]
