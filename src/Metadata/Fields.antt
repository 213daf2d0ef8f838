-- ===== src/Metadata/Fields.antt =====
-- The headers that are read back from metadata.
use penn_cloud.Prelude.{
  ◌≡◌, refl, ap, ◌∙◌, Bytes, bytes, bytes_eq, false, Option, none, some, [], ◌∷◌, ◌++◌, All, ◌==◌,
  getlines, split_from, All-append,
}
use Prim.Native.String.{String}
use mathlib.Core.List.{reverse-reverse}
use penn_cloud.Map.{Map, lookup, insert}
use penn_cloud.TextServer.Lines.{Lacks, cut-append, getlines-piece}
use penn_cloud.Metadata.{
  add_header, add_headers, header, parse_metadata, create_metadata, encrypt_metadata,
  decrypt_metadata,
}

-- One header in front of the rest.
add_headers-header :
    (name : String) (value rest : Bytes) (headers : Map Bytes)
    → Lacks b':' (bytes name)
    → Lacks b';' (bytes name)
    → Lacks b';' value
    → add_headers headers (getlines b';' (header name value rest))
      ≡ add_headers (insert (bytes name) value headers) (getlines b';' rest)
unfolding add_headers add_header
add_headers-header name value rest headers colons names values =
    ap (add_headers headers) (
      getlines-piece b';' (bytes name ++ b':' ∷ value) rest
        (All-append (λ x. (x == b';') ≡ false) (bytes name) (b':' ∷ value) names (refl, values)))
    ∙ ap
        (λ (found : Option (Bytes × Bytes)).
          add_headers (elim found [ none ↦ headers | some (k, v) ↦ insert k v headers ])
            (getlines b';' rest))
        (cut-append b':' (bytes name) value colons)

parse_metadata-created :
    (sender recipient subject timestamp : Bytes)
    → All (Lacks b';') (sender ∷ recipient ∷ subject ∷ timestamp ∷ [])
    → parse_metadata
        (decrypt_metadata (encrypt_metadata (create_metadata sender recipient subject timestamp)))
      ≡ insert (bytes "timestamp") timestamp (
          insert
            (bytes "subject")
            subject
            (insert (bytes "recipient") recipient (insert (bytes "sender") sender [])))
unfolding parse_metadata create_metadata encrypt_metadata decrypt_metadata add_headers getlines
    split_from
parse_metadata-created sender recipient subject timestamp h =
    ap parse_metadata (reverse-reverse (create_metadata sender recipient subject timestamp))
    ∙ add_headers-header "sender" sender _ _ (refl, (refl, (refl, (refl, (refl, (refl, tt))))))
        (refl, (refl, (refl, (refl, (refl, (refl, tt)))))) h.0
    ∙ add_headers-header "recipient" recipient _ _
        (refl, (refl, (refl, (refl, (refl, (refl, (refl, (refl, (refl, tt)))))))))
        (refl, (refl, (refl, (refl, (refl, (refl, (refl, (refl, (refl, tt))))))))) h.1.0
    ∙ add_headers-header "subject" subject _ _
        (refl, (refl, (refl, (refl, (refl, (refl, (refl, tt)))))))
        (refl, (refl, (refl, (refl, (refl, (refl, (refl, tt))))))) h.1.1.0
    ∙ add_headers-header "timestamp" timestamp _ _
        (refl, (refl, (refl, (refl, (refl, (refl, (refl, (refl, (refl, tt)))))))))
        (refl, (refl, (refl, (refl, (refl, (refl, (refl, (refl, (refl, tt))))))))) h.1.1.1.0

-- What was encrypted is decrypted and parsed to the four headers, as long as no value holds a
-- semicolon; the values may hold colons.
pub parse_metadata-create_metadata :
    (sender recipient subject timestamp : Bytes)
    → All (Lacks b';') (sender ∷ recipient ∷ subject ∷ timestamp ∷ [])
    → let headers = parse_metadata (
        decrypt_metadata (encrypt_metadata (create_metadata sender recipient subject timestamp))) in
      (lookup (bytes "sender") headers ≡ some sender)
      × (lookup (bytes "recipient") headers ≡ some recipient)
      × (lookup (bytes "subject") headers ≡ some subject)
      × (lookup (bytes "timestamp") headers ≡ some timestamp)
unfolding lookup insert bytes_eq
parse_metadata-create_metadata sender recipient subject timestamp h =
    rw (parse_metadata-created sender recipient subject timestamp h) (refl, refl, refl, refl)
