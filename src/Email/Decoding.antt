-- ===== src/Email/Decoding.antt =====
-- `urlDecode` of utils/utils.cc, and what is read back from an encoded text.
pub mod Escaped
pub mod Plain
use penn_cloud.Prelude.{
  ℕ, Bytes, Bool, Option, none, some, [], ◌∷◌, ◌&&◌, ◌||◌, ◌==◌, if◌then◌else◌,
}
use penn_cloud.Map.{Map}
use penn_cloud.Storage.Names.{stoi_16}

-- `iss >> hex >> hexVal` on two bytes, cut to one byte. Unlike `stoi`, the stream fails on the
-- prefix `0x` without a digit behind it.
unfoldable pub hex_value : ℕ → ℕ → Option ℕ
unfolding stoi_16
hex_value x y = if x == b'0' && (y == b'x' || y == b'X') then none else stoi_16 x y

-- Where the stream fails, nothing is written and the two bytes are passed over as well.
unfoldable pub url_decode : Bytes → Bytes
unfolding hex_value
url_decode [] = []
url_decode (p ∷ x ∷ y ∷ s) =
    let after = url_decode s in
    let rest = url_decode (x ∷ y ∷ s) in
    if p == b'%'
    then elim (hex_value x y) [ none ↦ after | some v ↦ v ∷ after ]
    else (if p == b'+' then b' ' else p) ∷ rest
url_decode (p ∷ s) = (if p == b'+' then b' ' else p) ∷ url_decode s

-- The loop over the fields of a form.
unfoldable pub decode_values : Map Bytes → Map Bytes
unfolding url_decode
decode_values [] = []
decode_values ((key, value) ∷ params) = (key, url_decode value) ∷ decode_values params
