-- ===== src/Tests/Platforms.antt =====
-- A platform whose hash is the first byte and whose maps are iterated in the order of their lists.
use penn_cloud.Prelude.{ℕ, Bytes, bytes, refl, [], ◌∷◌}
use penn_cloud.Tablet.{Tablet}
use penn_cloud.Op.{Op, put, cput, delete}
use penn_cloud.Worker.{Platform}
use penn_cloud.Worker.Writes.{Iterates}

abbrev pub first_byte : Bytes → ℕ
first_byte [] = 0
first_byte (x ∷ b) = x

abbrev pub plain : Platform
plain = record { hash = first_byte; iterate = λ t. t }

pub plain-Iterates : Iterates plain
plain-Iterates = record { cells = λ t r c. refl; formed = λ t h. h }

-- The rows of `c...` and `i...` are in tablet 4.
abbrev pub put_one : Op
put_one = put (bytes "cat") (bytes "meta") (bytes "1")

abbrev pub change_one : Op
change_one = cput (bytes "cat") (bytes "meta") (bytes "1") (bytes "22")

abbrev pub delete_one : Op
delete_one = delete (bytes "cat") (bytes "meta")

abbrev pub small : Tablet
small =
    (bytes "cat", (bytes "meta", bytes "1") ∷ (bytes "x", bytes "") ∷ [])
    ∷ (bytes "i", (bytes "y", bytes "22") ∷ [])
    ∷ []
