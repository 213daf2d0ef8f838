-- ===== src/Tests/Clusters.antt =====
-- The coordinator, the places of tablets and the cluster.
use penn_cloud.Prelude.{
  ℕ, ◌-◌, true, to_string, Bytes, bytes, ◌≡◌, ◌≢◌, ◌↔◌, inl, inr, refl, some, none, false, [], ◌∷◌,
  arith, Option, contains, cut_text, begins, bytes_eq,
}
use penn_cloud.Map.{lookup}
use penn_cloud.Tablet
use penn_cloud.Tablet.{cell}
use penn_cloud.Rpc.{success, error, unavailable, client_result, error_text, error_code}
use penn_cloud.Placement.{
  get_tablet_number_on_this_worker, get_logger, next1, next2, get_tablet, address, hash_to_bucket,
  num_tablets,
}
use penn_cloud.Placement.Hosts.{IsNode, node_cases, Holds, get_tablet-Holds}
use penn_cloud.Coordinator
use penn_cloud.Coordinator.{Coordinator, subscript, heartbeat, monitor, first_alive}
use penn_cloud.Coordinator.Routing.{IsUp, lookup-unavailable, lookup-get_tablet, lookup-heartbeat}
use penn_cloud.Op.{row}
use penn_cloud.KeyValue
use penn_cloud.KeyValue.{KeyValue}
use penn_cloud.Worker
use penn_cloud.Worker.{bucket, init}
use penn_cloud.Cluster.{start, write_at}
use penn_cloud.Cluster.Replication.{IsReady, Implements}
use penn_cloud.Cluster.Replication.Refines.{
  write_at-Implements, write_all, write_map, write_all-Implements,
}
use penn_cloud.Client
use penn_cloud.Client.Replies.{Reads, get-Implements}
use penn_cloud.Service.{Serves}
use penn_cloud.System.{System, store}
use penn_cloud.System.Serving
use penn_cloud.System.Serving.{store-Serves}
use penn_cloud.Account.{authenticate, signup}
use penn_cloud.Account.Logins.{accepts, set_password, signup-authenticate}
use penn_cloud.Storage.Disk.{client_disk}
use penn_cloud.Storage.Names.{path_in}
use penn_cloud.Storage.Files.{file_path, store_file, read_file}
use penn_cloud.Storage.RoundTrip.{IsName}
use penn_cloud.System.Uploads.{looked_up, user_disk, upload-read_file}
use penn_cloud.Tests.Platforms.{plain, first_byte, put_one, change_one, delete_one}

five-IsNode : IsNode 5
five-IsNode = omega arith

get_tablet-Holds_example : (get_tablet 5 4 ≢ none) ↔ Holds 5 4
get_tablet-Holds_example = get_tablet-Holds 5 4 five-IsNode (omega arith)

-- A second has a thousand ticks; worker 5 has just sent a heartbeat.
abbrev hosts : ℕ → Option Bytes
hosts id = some (address id)

abbrev seen : Coordinator
seen = monitor 1000 (heartbeat (Coordinator.init 1000 hosts 9000000) 5 9000000) 9001000

lookup-cat : (Coordinator.lookup first_byte seen (bytes "cat")).1 ≡ success
unfolding Coordinator.lookup Coordinator.init monitor heartbeat subscript hash_to_bucket address
lookup-cat = refl

lookup-get_tablet_example :
    (id : ℕ) × (seen.host_map id ≡ some (Coordinator.lookup first_byte seen (bytes "cat")).2)
    × IsUp seen id
    × (get_tablet id (hash_to_bucket first_byte (bytes "cat") num_tablets) ≢ none)
lookup-get_tablet_example = lookup-get_tablet first_byte seen (bytes "cat") lookup-cat

bucket-cat : hash_to_bucket first_byte (bytes "cat") num_tablets ≡ 4
unfolding hash_to_bucket
bucket-cat = refl

lookup-heartbeat_example :
    (j : ℕ) × ((Coordinator.lookup first_byte seen (bytes "cat")).1 ≡ success)
    × ((Coordinator.lookup first_byte seen (bytes "cat")).2 ≡ address j)
    × IsUp seen j
    × (get_tablet j (hash_to_bucket first_byte (bytes "cat") num_tablets) ≢ none)
unfolding Coordinator.init hash_to_bucket
lookup-heartbeat_example =
    lookup-heartbeat 1000 first_byte (Coordinator.init 1000 hosts 9000000) address (bytes "cat") 5
      9000000 9001000 (λ j h. refl) (inr (inl refl)) (omega arith)

lookup-unavailable_example :
    let m = Coordinator.init 1000 hosts 9000000 in
    let t = hash_to_bucket first_byte (bytes "cat") num_tablets in
    ((Coordinator.lookup first_byte m (bytes "cat")).1
      ≡ error unavailable (bytes "All workers are down"))
    ↔ ((subscript (m.is_alive t) ≡ false)
        × (subscript (m.is_alive (next1 t)) ≡ false)
        × (subscript (m.is_alive (next2 t)) ≡ false))
lookup-unavailable_example =
    lookup-unavailable first_byte (Coordinator.init 1000 hosts 9000000) (bytes "cat")

start-IsReady : IsReady start
unfolding init
start-IsReady = record {
  worker_id = λ id h. refl;
  worker_up = λ id h. refl;
  clients = λ id h. refl;
}

start-Implements : Implements plain start (λ r c. none)
unfolding init cell lookup
start-Implements = record { copies = λ r c. (refl, refl, refl) }

write_at-Implements_example :
    Implements plain
      (write_at plain start (bucket plain (row put_one)) put_one)
      (KeyValue.write put_one (λ r c. none))
write_at-Implements_example =
    write_at-Implements plain put_one start start-IsReady (λ r c. none) start-Implements

write_all-Implements_example :
    Implements plain
      (write_all plain start (put_one ∷ change_one ∷ delete_one ∷ []))
      (write_map plain (λ r c. none) (put_one ∷ change_one ∷ delete_one ∷ []))
write_all-Implements_example = write_all-Implements plain (put_one ∷ change_one ∷ delete_one ∷ [])

get-Implements_example : Reads (Client.get plain start 5 (bytes "cat") (bytes "meta")) none
unfolding hash_to_bucket
get-Implements_example =
    get-Implements plain start (λ r c. none) 5 (bytes "cat") (bytes "meta") start-IsReady
      start-Implements five-IsNode (inr (inl refl))

-- The last digit of an address.
last_digit : Bytes → ℕ
last_digit [] = 0
last_digit (x ∷ []) = x - 48
last_digit (x ∷ y ∷ b) = last_digit (y ∷ b)

last_digit-address : (id : ℕ) → IsNode id → last_digit (address id) ≡ id
unfolding last_digit address to_string
last_digit-address id node =
    node_cases (λ n. last_digit (address n) ≡ n) id node refl refl refl refl refl refl

store-Serves_example : Serves (store plain last_digit) (Serving.Shows plain) (Serving.At plain)
store-Serves_example = store-Serves plain last_digit last_digit-address

-- All workers are alive and empty.
abbrev all_up : System
all_up = record {
  cluster = start;
  master = record { host_map = hosts; is_alive = λ id. some true; last_heartbeat = λ id. none };
}

all_up-Shows : Serving.Shows plain all_up (λ r c. none)
all_up-Shows = record {
  ready = start-IsReady;
  agree = start-Implements;
  alive = λ id h. refl;
  hosts = λ id h. refl;
}

signup-authenticate_example :
    let signed = signup (store plain last_digit) all_up (bytes "ann") (bytes "pw") in
    (signed.1 ≡ true)
    × Serving.Shows plain signed.0 (set_password (bytes "ann") (bytes "pw") (λ r c. none))
    × ((authenticate (store plain last_digit) signed.0 (bytes "ann") (bytes "pw")).1
        ≡ accepts (some (bytes "pw")) (bytes "pw"))
signup-authenticate_example =
    signup-authenticate (store plain last_digit) (Serving.Shows plain) (Serving.At plain)
      (store-Serves plain last_digit last_digit-address) all_up (λ r c. none) (bytes "ann")
      (bytes "pw") (bytes "pw") all_up-Shows refl

-- A file of one byte in the row of ann.
abbrev ann_row : Bytes
ann_row = bytes "ann-storage"

abbrev file_name : Bytes
file_name = bytes "t"

file_name-IsName : IsName file_name
unfolding contains cut_text begins bytes_eq
file_name-IsName = record { no_comma = (refl, tt); found = refl }

file_name-chosen :
    file_path
      (user_disk plain last_digit all_up ann_row)
      1
      (looked_up plain last_digit all_up ann_row)
      []
      file_name
    ≡ some (file_name, file_name)
unfolding file_path path_in store Client.lookup Client.get Coordinator.lookup client_disk Worker.get
    Worker.with_tablet client_result hash_to_bucket get_tablet bytes_eq error_text error_code
    to_string address first_alive subscript last_digit lookup init get_tablet_number_on_this_worker
    get_logger Tablet.get
file_name-chosen = refl

upload-read_file_example :
    (s1 : System) × (store_file
        (user_disk plain last_digit all_up ann_row)
        1
        (looked_up plain last_digit all_up ann_row)
        []
        file_name
        (bytes "x")
      ≡ some (s1, file_name))
    × (read_file (user_disk plain last_digit all_up ann_row) s1 file_name ≡ bytes "x")
upload-read_file_example =
    upload-read_file plain last_digit last_digit-address 1 all_up (λ r c. none) ann_row [] file_name
      file_name file_name b'x' [] all_up-Shows file_name-chosen file_name-IsName refl (omega arith)
