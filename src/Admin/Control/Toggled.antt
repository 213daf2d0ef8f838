-- ===== src/Admin/Control/Toggled.antt =====
-- Which worker the administration switches off and on.
use penn_cloud.Prelude.{
  ℕ, zero, suc, ◌+◌, ◌-◌, ◌*◌, ◌%◌, ◌/◌, ◌<◌, ◌^◌, Bytes, bytes, bytes_eq, ◌≡◌, refl, sym, ap, ◌∙◌,
  true, false, some, [], ◌∷◌, arith, if◌then◌else◌, to_string, digits, value, value-digits, update,
  ltb, skip_spaces, IsDigit, All, to_string-IsDigit, is_space, inl, inr, Bool-cases,
}
use mathlib.Core.Path.{subst}
use penn_cloud.Placement.Hosts.{IsNode}
use penn_cloud.Rpc.{client_result}
use penn_cloud.Worker.Restart
use penn_cloud.Cluster.{Cluster}
use penn_cloud.Client
use penn_cloud.Storage.Requests.{leading_number, is_digit}
use penn_cloud.Admin.Control.{
  Servers, stoi, number_of, without_plus, worker_client, accepted, console, handle_toggle,
  shutdown_server, restart_server,
}

-- The number that digits stand for is read to their end.
leading_number-value : (n : ℕ) (s : Bytes) → All IsDigit s → leading_number n s ≡ value n s
unfolding leading_number is_digit value
leading_number-value n [] h = refl
leading_number-value n (x ∷ s) h =
    ground (arith, h.0, leading_number-value (10 * n + (x - 48)) s h.1)

-- A text of digits that is not empty.
stoi-digits :
    (x : ℕ) (s : Bytes)
    → All IsDigit (x ∷ s)
    → value 0 (x ∷ s) < 2 ^ 31
    → stoi (x ∷ s) ≡ some (value 0 (x ∷ s))
unfolding stoi skip_spaces without_plus number_of is_space is_digit
stoi-digits x s h small = ground (arith, h.0, small, leading_number-value 0 (x ∷ s) h)

digits-cons :
    (fuel n : ℕ) (acc : Bytes) → n < fuel → (x : ℕ) × (s : Bytes) × (digits fuel n acc ≡ x ∷ s)
unfolding digits
digits-cons zero n acc h = absurd (omega (arith, h))
digits-cons (suc fuel) n acc h = elim (Bool-cases (ltb n 10)) [
  | inl e ↦ (48 + n, acc, rw e refl)
  | inr e ↦
      let (x, s, found) = digits-cons fuel (n / 10) ((48 + n % 10) ∷ acc) (ground (arith, h, e)) in
      (x, s, rw e found)
]

-- `stoi` reads a number that fits into an `int` back from its decimal digits.
pub stoi-to_string : (n : ℕ) → n < 2 ^ 31 → stoi (to_string n) ≡ some n
unfolding to_string value
stoi-to_string n h =
    let (x, s, e) = digits-cons (suc n) n [] (omega arith) in
    let same : value 0 (x ∷ s) ≡ n =
      ap (value 0) (sym e) ∙ value-digits (suc n) n [] (omega arith) in
    ap stoi e
    ∙ stoi-digits x s (subst (λ t. All IsDigit t) e (to_string-IsDigit n)) (omega (arith, same, h))
    ∙ ap some same

-- The calls of the administration on the workers of a cluster. `copy` and `res` are what a
-- worker's own clients return while it restarts; the other calls are parameters.
abbrev pub cluster_servers :
    (ℕ → ℕ → Bytes)
    → Bytes
    → (Cluster → ℕ → Bytes)
    → (Cluster → ℕ → ℕ → Bytes)
    → (Cluster → Bytes)
    → (Cluster → Bytes → Cluster × ℕ)
    → Servers Cluster
cluster_servers copy res alive copy_tablet health system = record {
  alive = alive;
  admin_console = λ c id password command. Client.admin_console copy c id res password command;
  copy_tablet = copy_tablet;
  health = health;
  system = system;
}

worker_client-IsNode : (id : ℕ) → IsNode id → worker_client id ≡ some id
unfolding worker_client
worker_client-IsNode id h = ground arith

console-IsNode :
    {S : Type 0} (servers : Servers S) (s : S) (id : ℕ) (command : Bytes)
    → IsNode id
    → console servers s id command ≡ accepted (servers.admin_console s id (bytes "admin") command)
unfolding console
console-IsNode servers s id command h = rw (worker_client-IsNode id h, console) refl

-- The number of a worker in decimal digits is the worker that is sent the command.
handle_toggle-console :
    {S : Type 0} (servers : Servers S) (s : S) (id : ℕ) (command : Bytes)
    → IsNode id
    → handle_toggle servers s (to_string id) command
      ≡ accepted (
          servers.admin_console s id
            (bytes "admin")
            (if bytes_eq command (bytes "shutdown") then bytes "SHUTDOWN" else bytes "RESTART"))
unfolding handle_toggle shutdown_server restart_server
handle_toggle-console servers s id command h =
    elim (Bool-cases (bytes_eq command (bytes "shutdown"))) [
      | inl e ↦
          rw (stoi-to_string id (omega (arith, h.high)), e, handle_toggle)
            (console-IsNode servers s id (bytes "SHUTDOWN") h)
      | inr e ↦
          rw (stoi-to_string id (omega (arith, h.high)), e, handle_toggle)
            (console-IsNode servers s id (bytes "RESTART") h)
    ]

abbrev successful : Bytes
successful = bytes "AdminConsole request successful"

admin_console-shutdown :
    (copy : ℕ → ℕ → Bytes) (c : Cluster) (id : ℕ) (res : Bytes)
    → Client.admin_console copy c id res (bytes "admin") (bytes "SHUTDOWN")
      ≡ some (update c id (record (c id) { worker_up = false }), successful)
unfolding Client.admin_console Restart.admin_console client_result bytes_eq
admin_console-shutdown copy c id res = refl

admin_console-restart :
    (copy : ℕ → ℕ → Bytes) (c : Cluster) (id : ℕ) (res : Bytes)
    → (c id).worker_up ≡ true
    → Client.admin_console copy c id res (bytes "admin") (bytes "RESTART")
      ≡ some (update c id (c id), successful)
unfolding Client.admin_console Restart.admin_console client_result bytes_eq
admin_console-restart copy c id res up = rw up refl

-- In a cluster, the administrator's shutdown of a running worker, named by its decimal number, puts
-- exactly this worker down, and a restart of a running one leaves all as they are; both succeed.
pub handle_toggle-worker_up :
    (copy : ℕ → ℕ → Bytes) (res : Bytes) (alive : Cluster → ℕ → Bytes)
    (copy_tablet : Cluster → ℕ → ℕ → Bytes) (health : Cluster → Bytes)
    (system : Cluster → Bytes → Cluster × ℕ) (c : Cluster) (id : ℕ)
    → IsNode id
    → (c id).worker_up ≡ true
    → let servers = cluster_servers copy res alive copy_tablet health system in
      (handle_toggle servers c (to_string id) (bytes "shutdown")
        ≡ some (update c id (record (c id) { worker_up = false }), true))
      × (handle_toggle servers c (to_string id) (bytes "restart") ≡ some (update c id (c id), true))
unfolding Client.admin_console accepted bytes_eq
handle_toggle-worker_up copy res alive copy_tablet health system c id h up =
    let servers = cluster_servers copy res alive copy_tablet health system in
    (
      handle_toggle-console servers c id (bytes "shutdown") h
          ∙ ap accepted (admin_console-shutdown copy c id res),
      handle_toggle-console servers c id (bytes "restart") h
          ∙ ap accepted (admin_console-restart copy c id res up),
    )
