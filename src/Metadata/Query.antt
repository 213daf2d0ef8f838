-- ===== src/Metadata/Query.antt =====
-- The parameters that are read back from a query string.
use penn_cloud.Prelude.{
  ℕ, zero, suc, ◌≤◌, ◌≡◌, refl, Bytes, none, List, [], ◌∷◌, ◌++◌, All, arith, length, length-append,
}
use penn_cloud.Map.{Map, insert}
use penn_cloud.TextServer.{cut}
use penn_cloud.TextServer.Lines.{Lacks, cut-append}
use penn_cloud.Metadata.{parse_query_from, parse_query_string}

pub cut-Lacks : (d : ℕ) (a : Bytes) → Lacks d a → cut d a ≡ none
unfolding cut
cut-Lacks d [] h = refl
cut-Lacks d (x ∷ a) h = ground (arith, h.0, cut-Lacks d a h.1)

-- A parameter and those behind it, as a query string.
unfoldable pub query_text : Bytes × Bytes → List (Bytes × Bytes) → Bytes
query_text (key, value) [] = key ++ b'=' ∷ value
query_text (key, value) (param ∷ params) = key ++ b'=' ∷ (value ++ b'&' ∷ query_text param params)

-- The parameters one after the other, a later one in place of an earlier one of the same key.
abbrev pub insert_all : Map Bytes → List (Bytes × Bytes) → Map Bytes
insert_all m [] = m
insert_all m ((key, value) ∷ params) = insert_all (insert key value m) params

abbrev pub IsParam : Bytes × Bytes → Type 0
IsParam (key, value) = Lacks b'=' key × Lacks b'&' value

parse_query_from-query_text :
    (fuel : ℕ) (m : Map Bytes) (param : Bytes × Bytes) (params : List (Bytes × Bytes))
    → All IsParam (param ∷ params)
    → length (query_text param params) ≤ fuel
    → parse_query_from fuel m (query_text param params) ≡ insert_all m (param ∷ params)
unfolding parse_query_from query_text
parse_query_from-query_text zero m (key, value) [] h enough =
    absurd (omega (arith, length-append key (b'=' ∷ value)))
parse_query_from-query_text zero m (key, value) (param ∷ params) h enough =
    absurd (omega (arith, length-append key (b'=' ∷ (value ++ b'&' ∷ query_text param params))))
parse_query_from-query_text (suc fuel) m (key, value) [] h enough =
    ground (arith, cut-append b'=' key value h.0.0, cut-Lacks b'&' value h.0.1)
parse_query_from-query_text (suc fuel) m (key, value) (param ∷ params) h enough =
    let rest = query_text param params in
    ground (
      arith,
      cut-append b'=' key (value ++ b'&' ∷ rest) h.0.0,
      cut-append b'&' value rest h.0.1,
      parse_query_from-query_text fuel (insert key value m) param params h.1 (
          omega (
            arith,
            length-append key (b'=' ∷ (value ++ b'&' ∷ rest)),
            length-append value (b'&' ∷ rest),
          )),
    )

-- All parameters of a query string are read, in order and to the last, a later one in place of an
-- earlier one of the same key, as long as no key holds an equals sign and no value an ampersand.
pub parse_query_string-query_text :
    (param : Bytes × Bytes) (params : List (Bytes × Bytes))
    → All IsParam (param ∷ params)
    → parse_query_string (query_text param params) ≡ insert_all [] (param ∷ params)
unfolding parse_query_string
parse_query_string-query_text param params h =
    parse_query_from-query_text _ [] param params h (omega arith)
