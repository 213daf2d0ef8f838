-- ===== src/Tests/Workers.antt =====
-- Workers that write, crash, recover and copy.
use penn_cloud.Prelude.{
  ℕ, Bytes, bytes, bytes_eq, ◌≡◌, ◌≢◌, refl, some, true, false, [], ◌∷◌, arith, ◌==◌, Bool,
  if◌then◌else◌, update,
}
use penn_cloud.Map.{lookup, insert}
use penn_cloud.Tablet
use penn_cloud.Tablet.{Tablet, cell, row_of}
use penn_cloud.Serializer.RoundTrip.{FitsTablet}
use penn_cloud.Rpc.{error_text, error_code, unavailable}
use penn_cloud.Tests.Files.{small-IsFormed}
use penn_cloud.Placement.{
  get_tablet, get_logger, get_tablet_number_on_this_worker, connect, address, hash_to_bucket,
}
use penn_cloud.Placement.Hosts.{IsNode}
use penn_cloud.Op.{apply, log_entry}
use penn_cloud.Op.Replay.{SameCells}
use penn_cloud.Worker.{Worker, init, write, replicate_write}
use penn_cloud.Worker.Writes.{AllDurable, HasCapacity, write-AllDurable}
use penn_cloud.Worker.Crash.{
  from_client, serve, serve_all, RunFits, reboot, recovery, all_dead, init-AllDurable,
}
use penn_cloud.Worker.Restart.{recover_all_tablets, recover_tablet, copy_tablet, copy_tablet_client}
use penn_cloud.Worker.Copy.{recover_tablet-copy, recover_tablet-unavailable}
use penn_cloud.Tests.Platforms.{plain, plain-Iterates, put_one, small}

abbrev no_copy : ℕ → ℕ → Bytes
no_copy id t = error_text (error_code unavailable) (bytes "gone")

four-IsNode : IsNode 4
four-IsNode = omega arith

-- A worker of which one tablet is filled fits in 32 bits.
fits_at : (t u : Tablet) (b : Bool) → FitsTablet t → FitsTablet u → FitsTablet (if b then t else u)
fits_at t u true h k = h
fits_at t u false h k = k

abbrev one_cell : Tablet
one_cell = (bytes "cat", (bytes "meta", bytes "1") ∷ []) ∷ []

put_at_four-HasCapacity : HasCapacity plain (write plain (init 4) put_one).worker
unfolding write init get_tablet get_tablet_number_on_this_worker get_logger hash_to_bucket apply
    lookup insert log_entry Tablet.put bytes_eq
put_at_four-HasCapacity = record {
  at = λ i. fits_at one_cell [] (0 == i) (omega arith) (omega arith);
}

replica_at_four-HasCapacity : HasCapacity plain (replicate_write plain (init 4) put_one).worker
unfolding replicate_write init get_tablet get_tablet_number_on_this_worker get_logger hash_to_bucket
    apply lookup insert log_entry Tablet.put bytes_eq
replica_at_four-HasCapacity = record {
  at = λ i. fits_at one_cell [] (0 == i) (omega arith) (omega arith);
}

write-AllDurable_example :
    AllDurable (write plain (init 4) put_one).worker
    × AllDurable (replicate_write plain (init 4) put_one).worker
unfolding log_entry
write-AllDurable_example =
    write-AllDurable plain plain-Iterates (init 4) put_one (omega arith) (init-AllDurable 4)
      put_at_four-HasCapacity replica_at_four-HasCapacity

put_at_four-RunFits : RunFits plain (init 4) (from_client put_one ∷ [])
unfolding serve log_entry
put_at_four-RunFits = (omega arith, put_at_four-HasCapacity, tt)

recovery_example :
    (w' : Worker) × (recover_all_tablets no_copy
        (reboot (serve_all plain (init 4) (from_client put_one ∷ [])))
        all_dead
      ≡ some w')
    × SameCells (w'.tablets 0) ((serve_all plain (init 4) (from_client put_one ∷ [])).tablets 0)
    × SameCells (w'.tablets 1) ((serve_all plain (init 4) (from_client put_one ∷ [])).tablets 1)
    × SameCells (w'.tablets 2) ((serve_all plain (init 4) (from_client put_one ∷ [])).tablets 2)
recovery_example =
    recovery plain no_copy 4 (from_client put_one ∷ []) plain-Iterates four-IsNode
      put_at_four-RunFits

-- Worker 5 recovers tablet 4 from worker 4.
abbrev donor : Worker
unfolding init
donor = record (init 4) { tablets = λ i. small }

abbrev copy_donor : ℕ → ℕ → Bytes
copy_donor id t = copy_tablet_client (copy_tablet plain (λ k. true) donor t)

place_of_four : (get_tablet 4 4 ≡ some 0) × (get_tablet 5 4 ≡ some 1)
unfolding get_tablet
place_of_four = (refl, refl)

client_of_four : lookup (address 4) (connect 5) ≡ some 4
unfolding connect lookup insert bytes_eq
client_of_four = refl

address_alive : address 4 ≢ bytes "ALLDEAD"
unfolding address
address_alive e = cc

recover_tablet-copy_example :
    (u : Tablet) × (recover_tablet copy_donor (init 5) 4 (address 4)
      ≡ some (record (init 5) { tablets = update (init 5).tablets 1 u }))
    × SameCells u small
unfolding init
recover_tablet-copy_example =
    recover_tablet-copy plain plain-Iterates (λ k. true) copy_donor (init 5) donor (address 4) 4 4 0
      1 (λ k. refl) refl refl place_of_four.0 place_of_four.1 address_alive client_of_four
      small-IsFormed (omega arith)

recover_tablet-unavailable_example :
    recover_tablet no_copy (record (init 5) { tablets = λ i. small }) 4 (address 4)
    ≡ some (record (init 5) { tablets = update (λ i. small) 1 [] })
unfolding init
recover_tablet-unavailable_example =
    recover_tablet-unavailable no_copy (record (init 5) { tablets = λ i. small }) (address 4)
      (bytes "gone") 4 4 1 refl (omega arith) place_of_four.1 address_alive client_of_four
