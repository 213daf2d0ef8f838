-- ===== src/Wire.antt =====
-- Length-prefixed strings: `writeString` and `readString` of utils/serializer.cc, which
-- utils/logger.cc has once more. An `uint32_t` is written as it lies in memory, least significant
-- byte first on the machines that the program runs on.
use penn_cloud.Prelude.{
  ℕ, ◌+◌, ◌*◌, ◌/◌, ◌%◌, ◌^◌, ◌<◌, Bytes, ◌≡◌, ap, Option, none, some, [], ◌∷◌, ◌++◌, arith, leb,
  if◌then◌else◌, length, take, drop, take-length-append, drop-length-append, length-append,
  append_assoc,
}

-- `out.write` of an `uint32_t` that a `size()` was assigned to: what does not fit is cut off.
unfoldable pub write_u32 : ℕ → Bytes
write_u32 n = n % 256 ∷ n / 256 % 256 ∷ n / 65536 % 256 ∷ n / 16777216 % 256 ∷ []

-- `in.read` of four bytes, which fails at the end of the stream.
unfoldable pub read_u32 : Bytes → Option (ℕ × Bytes)
read_u32 (a ∷ b ∷ c ∷ d ∷ rest) = some (a + b * 256 + c * 65536 + d * 16777216, rest)
read_u32 _ = none

unfoldable pub write_string : Bytes → Bytes
write_string s = write_u32 (length s) ++ s

-- `str.resize(len)` and `in.read(&str[0], len)`
read_bytes : ℕ → Bytes → Option (Bytes × Bytes)
read_bytes n b = if leb n (length b) then some (take n b, drop n b) else none

unfoldable pub read_string : Bytes → Option (Bytes × Bytes)
unfolding read_bytes
read_string b = elim (read_u32 b) [ none ↦ none | some (n, rest) ↦ read_bytes n rest ]

abbrev pub Fits : Bytes → Type 0
Fits s = length s < 2 ^ 32

pub read_u32-write_u32 :
    (n : ℕ) (rest : Bytes) → n < 2 ^ 32 → read_u32 (write_u32 n ++ rest) ≡ some (n, rest)
unfolding read_u32 write_u32
read_u32-write_u32 n rest h = ap (λ (k : ℕ). some (k, rest)) (omega arith)

read_bytes-append : (s rest : Bytes) → read_bytes (length s) (s ++ rest) ≡ some (s, rest)
unfolding read_bytes
read_bytes-append s rest =
    ground (arith, length-append s rest, take-length-append s rest, drop-length-append s rest)

pub read_string-write_string :
    (s rest : Bytes) → Fits s → read_string (write_string s ++ rest) ≡ some (s, rest)
unfolding read_string
read_string-write_string s rest h =
    unfold write_string in
    rw (append_assoc (write_u32 (length s)) s rest)
      (rw (read_u32-write_u32 (length s) (s ++ rest) h, read_string) (read_bytes-append s rest))

-- A string that is announced longer than what follows is not read.
pub read_string-short :
    (a b c d : ℕ) (rest : Bytes)
    → length rest < a + b * 256 + c * 65536 + d * 16777216
    → read_string (a ∷ b ∷ c ∷ d ∷ rest) ≡ none
unfolding read_string read_u32
read_string-short a b c d rest h = ground arith
