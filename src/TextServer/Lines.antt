-- ===== src/TextServer/Lines.antt =====
-- What a message of the line protocol does.
use penn_cloud.Prelude.{
  ℕ, ◌≡◌, refl, sym, ap, ◌∙◌, Bytes, bytes, bytes_eq, false, Option, none, some, List, [], ◌∷◌,
  ◌++◌, All, ◌==◌, getlines, split_from, arith, append-nil, append_assoc, length-append,
  take-length-append,
}
use penn_cloud.Tablet.{Tablet}
use penn_cloud.TextServer.{
  cut, crlf, without_end, command_of, process_message, dispatch, going_on, handle_get, handle_put,
  handle_cput, handle_delete, get_params, put_params, cput_params, delete_params,
}

-- A text without the byte `d`.
abbrev pub Lacks : ℕ → Bytes → Type 0
Lacks d s = All (λ x. (x == d) ≡ false) s

pub cut-append : (d : ℕ) (a s : Bytes) → Lacks d a → cut d (a ++ d ∷ s) ≡ some (a, s)
unfolding cut
cut-append d [] s h = ground arith
cut-append d (x ∷ a) s h = ground (arith, h.0, cut-append d a s h.1)

-- A piece before a delimiter, and one at the end.
split_from-piece :
    (d : ℕ) (acc a s : Bytes)
    → Lacks d a
    → split_from d acc (a ++ d ∷ s) ≡ (acc ++ a) ∷ split_from d [] s
unfolding split_from
split_from-piece d acc [] s h = ground (arith, append-nil acc)
split_from-piece d acc (x ∷ a) s h =
    ground (arith, h.0, split_from-piece d (acc ++ x ∷ []) a s h.1, append_assoc acc (x ∷ []) a)

split_from-last :
    (d x : ℕ) (acc a : Bytes) → Lacks d a → split_from d (x ∷ acc) a ≡ (x ∷ acc ++ a) ∷ []
unfolding split_from
split_from-last d x acc [] h = ap (λ t. (x ∷ t) ∷ []) (sym (append-nil acc))
split_from-last d x acc (y ∷ a) h =
    ground (arith, h.0, split_from-last d x (acc ++ y ∷ []) a h.1, append_assoc acc (y ∷ []) a)

pub getlines-piece : (d : ℕ) (a s : Bytes) → Lacks d a → getlines d (a ++ d ∷ s) ≡ a ∷ getlines d s
unfolding getlines
getlines-piece d a s h = split_from-piece d [] a s h

pub getlines-last : (d x : ℕ) (a : Bytes) → Lacks d (x ∷ a) → getlines d (x ∷ a) ≡ (x ∷ a) ∷ []
unfolding getlines split_from
getlines-last d x a h = ground (arith, h.0, split_from-last d x [] a h.1)

without_end-crlf : (s : Bytes) → without_end (s ++ crlf) ≡ s
unfolding without_end crlf
without_end-crlf s = ground (arith, length-append s crlf, take-length-append s crlf)

-- A message: a command, a space and the parameters.
abbrev pub message : Bytes → Bytes → Bytes
message command parameters = command ++ b' ' ∷ (parameters ++ crlf)

-- How a message with a command and parameters goes on.
process_message-dispatch :
    (t : Tablet) (command parameters : Bytes)
    → Lacks b' ' command
    → process_message t (message command parameters)
      ≡ dispatch t (message command parameters) command (getlines b'|' parameters)
unfolding process_message command_of
process_message-dispatch t command parameters h =
    ap
      (λ (found : Option (Bytes × Bytes)).
        let parts : Bytes × Bytes = command_of (message command parameters) found in
        dispatch t (message command parameters) parts.0 (getlines b'|' (without_end parts.1)))
      (cut-append b' ' command (parameters ++ crlf) h)
    ∙ ap (λ (s : Bytes). dispatch t (message command parameters) command (getlines b'|' s))
        (without_end-crlf parameters)

-- Parameters with bars between them.
abbrev pub join : List Bytes → Bytes → Bytes
join [] z = z
join (a ∷ before) z = a ++ b'|' ∷ join before z

-- The parameters are found again if none holds a bar and the last is not empty.
getlines-join :
    (before : List Bytes) (x : ℕ) (z : Bytes)
    → All (Lacks b'|') before
    → Lacks b'|' (x ∷ z)
    → getlines b'|' (join before (x ∷ z)) ≡ before ++ (x ∷ z) ∷ []
getlines-join [] x z h hz = getlines-last b'|' x z hz
getlines-join (a ∷ before) x z h hz =
    getlines-piece b'|' a (join before (x ∷ z)) h.0 ∙ ap (◌∷◌ a) (getlines-join before x z h.1 hz)

-- An empty last parameter is lost.
getlines-blank :
    (a : Bytes) (before : List Bytes)
    → All (Lacks b'|') (a ∷ before)
    → getlines b'|' (join (a ∷ before) []) ≡ a ∷ before
unfolding getlines split_from
getlines-blank a [] h = getlines-piece b'|' a [] h.0
getlines-blank a (b ∷ before) h =
    getlines-piece b'|' a (join (b ∷ before) []) h.0 ∙ ap (◌∷◌ a) (getlines-blank b before h.1)

-- Each command of the line protocol reaches its handler, with the parameters that stand between the
-- bars, as long as no parameter holds a bar and the last one is not empty.
pub process_message-handlers :
    (t : Tablet) (r c current : Bytes) (x : ℕ) (v : Bytes)
    → All (Lacks b'|') (r ∷ c ∷ current ∷ (x ∷ v) ∷ [])
    → (process_message t (message (bytes "GET") (join (r ∷ []) (x ∷ v)))
        ≡ going_on (handle_get t r (x ∷ v)))
      × (process_message t (message (bytes "PUT") (join (r ∷ c ∷ []) (x ∷ v)))
          ≡ going_on (handle_put t r c (x ∷ v)))
      × (process_message t (message (bytes "CPUT") (join (r ∷ c ∷ current ∷ []) (x ∷ v)))
          ≡ going_on (handle_cput t r c current (x ∷ v)))
      × (process_message t (message (bytes "DELETE") (join (r ∷ []) (x ∷ v)))
          ≡ going_on (handle_delete t r (x ∷ v)))
unfolding dispatch bytes_eq get_params put_params cput_params delete_params
process_message-handlers t r c current x v h = (
  process_message-dispatch t (bytes "GET") _ (refl, (refl, (refl, tt)))
      ∙ ap (get_params t) (getlines-join (r ∷ []) x v (h.0, tt) h.1.1.1.0),
  process_message-dispatch t (bytes "PUT") _ (refl, (refl, (refl, tt)))
      ∙ ap (put_params t) (getlines-join (r ∷ c ∷ []) x v (h.0, (h.1.0, tt)) h.1.1.1.0),
  process_message-dispatch t (bytes "CPUT") _ (refl, (refl, (refl, (refl, tt))))
      ∙ ap (cput_params t)
          (getlines-join (r ∷ c ∷ current ∷ []) x v (h.0, (h.1.0, (h.1.1.0, tt))) h.1.1.1.0),
  process_message-dispatch t (bytes "DELETE") _ (refl, (refl, (refl, (refl, (refl, (refl, tt))))))
      ∙ ap (delete_params t) (getlines-join (r ∷ []) x v (h.0, tt) h.1.1.1.0),
)

-- A PUT of an empty value ends in an exception, whatever the row and the column are, as long as
-- they hold no bar.
pub process_message-blank :
    (t : Tablet) (r c : Bytes)
    → All (Lacks b'|') (r ∷ c ∷ [])
    → process_message t (message (bytes "PUT") (join (r ∷ c ∷ []) [])) ≡ none
unfolding dispatch bytes_eq put_params
process_message-blank t r c h =
    process_message-dispatch t (bytes "PUT") _ (refl, (refl, (refl, tt)))
    ∙ ap (put_params t) (getlines-blank r (c ∷ []) h)
