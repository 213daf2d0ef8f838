-- ===== src/Coordinator.antt =====
-- The coordinator, backend/coordinator.cc. The maps that go by a worker's number are functions;
-- `none` is a number that the map does not hold. Each method is one step, as the mutexes make it.
pub mod Routing
use penn_cloud.Prelude.{
  ℕ, ◌+◌, ◌-◌, ◌*◌, ◌/◌, ◌%◌, Bytes, bytes, Option, none, some, Bool, true, false, List, [], ◌∷◌,
  ◌++◌, ltb, leb, not, ◌&&◌, if◌then◌else◌, update,
}
use penn_cloud.Rpc.{Status, success, error, threw, unavailable, invalid_argument}
use penn_cloud.Placement.{num_tablets, hash_to_bucket, next1, next2, prev1, prev2, address}

pub record Coordinator : Type 0 where
  pub host_map : ℕ → Option Bytes
  pub is_alive : ℕ → Option Bool
  pub last_heartbeat : ℕ → Option ℕ

-- `isAlive[id]`, which adds `false` for a number that is not there.
unfoldable pub subscript : Option Bool → Bool
subscript none = false
subscript (some alive) = alive

touch : Coordinator → ℕ → Coordinator
unfolding subscript
touch m id = record m { is_alive = update m.is_alive id (some (subscript (m.is_alive id))) }

-- Times are numbers of clock ticks, `second` of them to the second.
module _ (second : ℕ) where
  -- The constructor: every worker was last seen an hour ago.
  unfoldable pub init : (ℕ → Option Bytes) → ℕ → Coordinator
  init hosts now = record {
    host_map = hosts;
    is_alive = λ id. none;
    last_heartbeat =
        λ id. if leb 1 id && leb id num_tablets then some (now - 3600 * second) else none;
  }

  -- One round of the monitor's thread, at time `now`.
  unfoldable pub is_recent : ℕ → ℕ → Bool
  is_recent now last_seen = not (ltb 3 ((now - last_seen) / second))

  unfoldable pub monitor : Coordinator → ℕ → Coordinator
  unfolding is_recent
  monitor m now = record m {
    is_alive = λ id. elim (m.last_heartbeat id) [
      | none ↦ m.is_alive id
      | some last_seen ↦ some (is_recent now last_seen)
    ];
  }

unfoldable pub heartbeat : Coordinator → ℕ → ℕ → Coordinator
heartbeat m id now = record m { last_heartbeat = update m.last_heartbeat id (some now) }

-- The first of the candidates that is alive, and the map as the look-ups leave it.
unfoldable pub first_alive : Coordinator → List ℕ → Coordinator × Option ℕ
unfolding touch
first_alive m [] = (m, none)
first_alive m (id ∷ ids) =
    let rest : Coordinator × Option ℕ = first_alive (touch m id) ids in
    if subscript (m.is_alive id) then (touch m id, some id) else rest

abbrev pub candidates : ℕ → List ℕ
candidates t = t ∷ next1 t ∷ next2 t ∷ []

-- `hostMap.at(id)`
host_at : Option Bytes → Status × Bytes
host_at none = (threw, [])
host_at (some host) = (success, host)

lookup_reply : Coordinator × Option ℕ → Coordinator × Status × Bytes
unfolding host_at
lookup_reply (m, none) = (m, error unavailable (bytes "All workers are down"), [])
lookup_reply (m, some id) = let (status, host) = host_at (m.host_map id) in (m, status, host)

-- The new state, the status and `worker` of the response.
unfoldable pub lookup : (Bytes → ℕ) → Coordinator → Bytes → Coordinator × Status × Bytes
unfolding lookup_reply first_alive
lookup hash m key = lookup_reply (first_alive m (candidates (hash_to_bucket hash key num_tablets)))

primary_of : Coordinator × Option ℕ → Coordinator × Bytes
primary_of (m, none) = (m, bytes "ALLDEAD")
primary_of (m, some id) = (m, address id)

unfoldable pub get_current_primary : Coordinator → ℕ → Coordinator × Bytes
unfolding primary_of first_alive
get_current_primary m t = primary_of (first_alive m (candidates t))

-- The new state, and `primary`, `secondary` and `tertiary` of the response.
unfoldable pub worker_lookup : Coordinator → ℕ → Coordinator × Bytes × Bytes × Bytes
unfolding get_current_primary
worker_lookup m id =
    let (m1, primary) = get_current_primary m id in
    let (m2, secondary) = get_current_primary m1 (prev1 id) in
    let (m3, tertiary) = get_current_primary m2 (prev2 id) in (m3, primary, secondary, tertiary)

-- The status, and `alive` of the response.
unfoldable pub alive : Coordinator → ℕ → Status × Bool
alive m id = elim (m.is_alive id) [
  | none ↦ (error invalid_argument (bytes "Only workers 1-6 exist."), false)
  | some up ↦ (success, up)
]

-- `MasterNodeClient::WorkerLookup` of backend/kvs_client.h, where the call reaches the coordinator.
unfoldable pub worker_lookup_client : Bytes × Bytes × Bytes → Bytes
worker_lookup_client (primary, secondary, tertiary) =
    primary ++ (bytes ";" ++ (secondary ++ (bytes ";" ++ tertiary)))
