-- ===== src/Placement.antt =====
-- Which worker holds which tablet: hashToBucket of utils/utils.cc, the functions of
-- backend/worker.cc that find a tablet's place on a worker, and the replicas of a worker.
pub mod Hosts
use penn_cloud.Prelude.{
  ℕ, zero, suc, ◌+◌, ◌-◌, ◌%◌, Bytes, bytes, Option, none, some, List, [], ◌∷◌, ◌++◌, ◌==◌,
  if◌then◌else◌, to_string,
}
use penn_cloud.Map.{Map, lookup, insert}

abbrev pub num_tablets : ℕ
num_tablets = 6

-- `std::hash` is a parameter.
unfoldable pub hash_to_bucket : (Bytes → ℕ) → Bytes → ℕ → ℕ
hash_to_bucket hash input num_buckets = hash input % num_buckets + 1

-- `workerId - 1` and `workerId - 2` around the ring of the numbers 1 to 6.
abbrev pub prev1 : ℕ → ℕ
prev1 worker_id = (worker_id + num_tablets - 2) % num_tablets + 1

abbrev pub prev2 : ℕ → ℕ
prev2 worker_id = (worker_id + num_tablets - 3) % num_tablets + 1

-- The two that follow on the ring.
abbrev pub next1 : ℕ → ℕ
next1 t = t % num_tablets + 1

abbrev pub next2 : ℕ → ℕ
next2 t = (t + 1) % num_tablets + 1

-- The place in the vector `tablets` of worker `w`; `none` is the exception.
unfoldable pub get_tablet : ℕ → ℕ → Option ℕ
get_tablet w t =
    if t == w
    then some 0
    else if t == prev1 w
    then some 1
    else if t == prev2 w
    then some 2
    else none

-- The place in the vector `loggers`.
unfoldable pub get_logger : ℕ → ℕ → Option ℕ
get_logger w t =
    if t == w
    then some 0
    else if t == prev1 w
    then some 1
    else if t == prev2 w
    then some 2
    else none

-- `none` is `TABLET_NOT_FOUND`.
unfoldable pub get_tablet_number_on_this_worker : ℕ → ℕ → Option ℕ
get_tablet_number_on_this_worker w t =
    if t == w
    then some 1
    else if t == prev1 w
    then some 2
    else if t == prev2 w
    then some 3
    else none

unfoldable pub address : ℕ → Bytes
unfolding to_string
address id = bytes "127.0.0.1:" ++ to_string (10000 + id)

-- `workerClientPtrs`: for each other worker's address the worker that the client talks to.
-- `none` in a look-up is a null pointer.
abbrev pub Clients : Type 0
Clients = Map ℕ

connect_loop : ℕ → ℕ → ℕ → Clients → Clients
connect_loop zero i own clients = clients
connect_loop (suc rounds) i own clients =
    connect_loop rounds (i + 1) own (if i == own then clients else insert (address i) i clients)

unfoldable pub connect : ℕ → Clients
unfolding connect_loop address
connect own = connect_loop num_tablets 1 own []

-- Where worker `w` sends on what it wrote to tablet `t`.
unfoldable pub get_replicas_for_replication : ℕ → ℕ → Clients → List (Bytes × Option ℕ)
unfolding address
get_replicas_for_replication w t clients =
    if t == w
    then (address (next1 w), lookup (address (next1 w)) clients)
      ∷ (address (next2 w), lookup (address (next2 w)) clients)
      ∷ []
    else if t == prev1 w
    then elim (lookup (address (next1 w)) clients) [
      | none ↦ []
      | some id ↦ (address (next1 w), some id) ∷ []
    ]
    else []
