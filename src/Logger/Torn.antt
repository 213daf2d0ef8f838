-- ===== src/Logger/Torn.antt =====
-- What comes back from a log: the entries that were written, also when the last write was cut off.
use penn_cloud.Prelude.{
  ℕ, zero, suc, ◌+◌, ◌-◌, ◌<◌, ◌≤◌, Bytes, ◌≡◌, refl, ap, sym, ◌∙◌, Option, none, some, List, [],
  ◌∷◌, ◌++◌, length, take, append_assoc, append-nil, arith, length-append, length-take, All,
  Bool-cases, leb, inl, inr,
}
use penn_cloud.Wire.{write_u32, read_u32, write_string, read_string, Fits, read_string-write_string}
use penn_cloud.Logger.{
  CommandLog, write_command, log_command, read_next_command, read_commands, get_logs, ◌>>=◌,
}

pub record FitsLog (cl : CommandLog) : Type 0 where
  pub command : Fits cl.command
  pub row : Fits cl.row
  pub column : Fits cl.column
  pub value1 : Fits cl.value1
  pub value2 : Fits cl.value2

-- A log file that holds these entries, oldest first.
unfoldable pub write_commands : List CommandLog → Bytes
write_commands [] = []
write_commands (cl ∷ cls) = write_command cl ++ write_commands cls

pub read_next-write_command :
    (cl : CommandLog) (rest : Bytes)
    → FitsLog cl
    → read_next_command (write_command cl ++ rest) ≡ some (cl, rest)
unfolding read_next_command write_command
read_next-write_command cl rest f =
    simp (append_assoc, read_string-write_string, f.command, f.row, f.column, f.value1, f.value2)

-- Cutting behind the first part of a text cuts the rest.
take-append {ℓ} :
    {A : Type ℓ} (xs ys : List A) (k : ℕ)
    → length xs ≤ k
    → take k (xs ++ ys) ≡ xs ++ take (k - length xs) ys
take-append [] ys k h = ap (λ n. take n ys) (omega arith)
take-append (x ∷ xs) ys zero h = elim h [ ]
take-append (x ∷ xs) ys (suc k) h =
    ap (◌∷◌ x) (take-append xs ys k (omega arith) ∙ ap (λ n. xs ++ take n ys) (omega arith))

-- A string that is cut off before its end is not read.
read_string-take :
    (s rest : Bytes) (k : ℕ)
    → Fits s
    → k < length (write_string s)
    → read_string (take k (write_string s ++ rest)) ≡ none
unfolding read_string read_u32 write_string write_u32
read_string-take s rest zero f h = refl
read_string-take s rest (suc zero) f h = refl
read_string-take s rest (suc (suc zero)) f h = refl
read_string-take s rest (suc (suc (suc zero))) f h = refl
read_string-take s rest (suc (suc (suc (suc k)))) f h = ground (arith, length-take k (s ++ rest))

-- So reading goes on behind a string only if the string is there whole.
bind-take {ℓ} :
    {B : Type ℓ} (s rest : Bytes) (k : ℕ) (next : Bytes × Bytes → Option B)
    → Fits s
    → (length (write_string s) ≤ k → next (s, take (k - length (write_string s)) rest) ≡ none)
    → (read_string (take k (write_string s ++ rest)) >>= next) ≡ none
bind-take s rest k next f h = elim (Bool-cases (leb (length (write_string s)) k)) [
  | inl e ↦ rw (take-append (write_string s) rest k (ground arith)) (
      rw (read_string-write_string s (take (k - length (write_string s)) rest) f)
        (h (ground arith)))
  | inr e ↦ rw (read_string-take s rest k f (ground arith))
]

length-write_command :
    (cl : CommandLog)
    → length (write_command cl)
      ≡ length (write_string cl.command)
        + (length (write_string cl.row)
            + (length (write_string cl.column)
                + (length (write_string cl.value1) + length (write_string cl.value2))))
unfolding write_command
length-write_command cl = simp length-append

-- An entry that is cut off before its end is not read.
read_next-take :
    (cl : CommandLog) (k : ℕ)
    → FitsLog cl
    → k < length (write_command cl)
    → read_next_command (take k (write_command cl)) ≡ none
unfolding read_next_command write_command
read_next-take cl k f h = bind-take cl.command _ k _ f.command λ h1.
    bind-take cl.row _ _ _ f.row λ h2. bind-take cl.column _ _ _ f.column λ h3.
      bind-take cl.value1 _ _ _ f.value1 λ h4. rw (
        last_part (left - length (write_string cl.value1)) (omega (arith, length-write_command cl)))
  where
    left : ℕ
    left =
        k
        - length (write_string cl.command)
        - length (write_string cl.row)
        - length (write_string cl.column)

    last_part :
        (j : ℕ)
        → j < length (write_string cl.value2)
        → read_string (take j (write_string cl.value2)) ≡ none
    last_part j p =
        ap (λ b. read_string (take j b)) (sym (append-nil (write_string cl.value2)))
        ∙ read_string-take cl.value2 [] j f.value2 p

write_string-not_empty : (s : Bytes) → 0 < length (write_string s)
unfolding write_string write_u32
write_string-not_empty s = omega arith

write_command-not_empty : (cl : CommandLog) → 0 < length (write_command cl)
write_command-not_empty cl =
    omega (arith, length-write_command cl, write_string-not_empty cl.command)

-- With as much fuel as bytes the loop reads every whole entry, and stops at one that is cut off.
read_commands-torn :
    (cls : List CommandLog) (cl : CommandLog) (k fuel : ℕ)
    → All FitsLog cls
    → FitsLog cl
    → k < length (write_command cl)
    → length (write_commands cls) ≤ fuel
    → read_commands fuel (write_commands cls ++ take k (write_command cl)) ≡ cls
unfolding read_commands write_commands
read_commands-torn [] cl k zero fs f h enough = refl
read_commands-torn [] cl k (suc fuel) fs f h enough = rw (read_next-take cl k f h, read_commands)
read_commands-torn (c ∷ cls) cl k zero fs f h enough =
    absurd (
      omega
        (arith, write_command-not_empty c, length-append (write_command c) (write_commands cls)))
read_commands-torn (c ∷ cls) cl k (suc fuel) fs f h enough =
    rw (append_assoc (write_command c) (write_commands cls) (take k (write_command cl))) (
      rw
        (
          read_next-write_command c (write_commands cls ++ take k (write_command cl)) fs.0,
          read_commands,
        )
        (ap (◌∷◌ c) (
          read_commands-torn cls cl k fuel fs.1 f h (
            omega (
              arith,
              write_command-not_empty c,
              length-append (write_command c) (write_commands cls),
            )))))

-- After any number of whole writes and one that a crash cut off, at any byte, all with sizes below
-- 2^32, the log gives back the whole entries, in order, and nothing of the last one.
pub get_logs-torn :
    (cls : List CommandLog) (cl : CommandLog) (k : ℕ)
    → All FitsLog cls
    → FitsLog cl
    → k < length (write_command cl)
    → get_logs (write_commands cls ++ take k (write_command cl)) ≡ cls
unfolding get_logs
get_logs-torn cls cl k fs f h =
    read_commands-torn cls cl k _ fs f h
      (omega (arith, length-append (write_commands cls) (take k (write_command cl))))

-- Logging a command adds it behind those that the log holds.
pub write_commands-append :
    (cls : List CommandLog) (cl : CommandLog)
    → log_command cl (write_commands cls) ≡ write_commands (cls ++ cl ∷ [])
unfolding log_command write_commands
write_commands-append [] cl = sym (append-nil (write_command cl))
write_commands-append (c ∷ cls) cl =
    append_assoc (write_command c) (write_commands cls) (write_command cl)
    ∙ ap (◌++◌ (write_command c)) (unfold log_command in write_commands-append cls cl)

abbrev blank : CommandLog
blank = record { command = []; row = []; column = []; value1 = []; value2 = [] }

pub get_logs-write_commands :
    (cls : List CommandLog) → All FitsLog cls → get_logs (write_commands cls) ≡ cls
get_logs-write_commands cls fs =
    ap get_logs (sym (append-nil (write_commands cls)))
    ∙ get_logs-torn cls blank 0 fs (omega arith) (write_command-not_empty blank)
