-- ===== src/Logger.antt =====
-- The command log of utils/logger.h and utils/logger.cc. A log file is the list of its bytes;
-- `writeString` and `readString` are those of module `Wire`.
pub mod Torn
use penn_cloud.Prelude.{ℕ, zero, suc, Bytes, Option, none, some, List, [], ◌∷◌, ◌++◌, length}
use penn_cloud.Wire.{write_string, read_string}

pub record CommandLog : Type 0 where
  pub command : Bytes
  pub row : Bytes
  pub column : Bytes
  pub value1 : Bytes
  pub value2 : Bytes

-- The five strings of an entry, as `logCommand` writes them.
unfoldable pub write_command : CommandLog → Bytes
write_command cl =
    write_string cl.command
    ++ (write_string cl.row
        ++ (write_string cl.column ++ (write_string cl.value1 ++ write_string cl.value2)))

-- The file is open for appending.
unfoldable pub log_command : CommandLog → Bytes → Bytes
unfolding write_command
log_command cl file = file ++ write_command cl

infixl 5 ◌>>=◌
abbrev ◌>>=◌ {ℓ κ} : {A : Type ℓ} {B : Type κ} → Option A → (A → Option B) → Option B
none >>= f = none
some a >>= f = f a

unfoldable pub read_next_command : Bytes → Option (CommandLog × Bytes)
read_next_command b = do
  (command, b1) ← read_string b
  (row, b2) ← read_string b1
  (column, b3) ← read_string b2
  (value1, b4) ← read_string b3
  (value2, rest) ← read_string b4
  some (
    record { command = command; row = row; column = column; value1 = value1; value2 = value2 },
    rest,
  )

-- `while (readNextCommand(cl)) logs.push_back(cl);`
unfoldable pub read_commands : ℕ → Bytes → List CommandLog
read_commands zero b = []
read_commands (suc fuel) b = elim (read_next_command b) [
  | none ↦ []
  | some (cl, rest) ↦ cl ∷ read_commands fuel rest
]

-- From the beginning of the file. Every round takes a byte at least, so the file's length is
-- enough fuel.
unfoldable pub get_logs : Bytes → List CommandLog
unfolding read_commands
get_logs file = read_commands (length file) file

-- The file is truncated.
unfoldable pub clear_log : Bytes → Bytes
clear_log file = []
