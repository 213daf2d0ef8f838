-- ===== src/Worker/Restart.antt =====
-- Recovery of a worker, CopyTablet and AdminConsole of backend/worker.cc.
use penn_cloud.Prelude.{
  ℕ, zero, suc, ◌^◌, Bytes, bytes, bytes_eq, Option, none, some, Bool, true, false, List, [], ◌∷◌,
  ◌++◌, take, drop, length, getlines, if◌then◌else◌, update,
}
use penn_cloud.Map.{lookup}
use penn_cloud.Serializer.{serialize_tablet, deserialize_tablet}
use penn_cloud.Rpc.{
  Status, success, error, threw, not_found, unavailable, internal, invalid_argument, client_result,
}
use penn_cloud.Placement.{get_tablet, get_logger, get_tablet_number_on_this_worker, prev1}
use penn_cloud.Worker.{Platform, Worker, Outcome, failed}
use penn_cloud.Worker.Files.{rebuild_tablet}

-- `none` is the end of the process, by `exit` or an exception.
unfoldable pub recover_from_local : Worker → ℕ → ℕ → Option Worker
recover_from_local w t n = elim (get_logger w.worker_id t) [
  | none ↦ none
  | some l ↦ elim (get_tablet w.worker_id t) [
    | none ↦ none
    | some i ↦ elim (rebuild_tablet (w.checkpoints n) (w.logs l)) [
      | none ↦ none
      | some tablet ↦ some (record w { tablets = update w.tablets i tablet })
    ]
  ]
]

-- Another worker's tablet takes the place of this worker's; whether it could be read is ignored.
unfoldable pub copy_over : Worker → ℕ → Bytes → Option Worker
copy_over w t tablet_string = elim (get_tablet w.worker_id t) [
  | none ↦ none
  | some i ↦
      some (record w { tablets = update w.tablets i (deserialize_tablet [] tablet_string).0 })
]

-- `copy id t` is what the client to worker `id` returns for CopyTablet of tablet `t`.
module _ (copy : ℕ → ℕ → Bytes) where
  -- One round of the loop, for the host that the coordinator named for tablet `t`.
  unfoldable pub recover_tablet : Worker → ℕ → Bytes → Option Worker
  unfolding recover_from_local copy_over
  recover_tablet w t host = elim (get_tablet_number_on_this_worker w.worker_id t) [
    | none ↦ none
    | some n ↦
        if bytes_eq host (bytes "ALLDEAD")
        then recover_from_local w t n
        else elim (lookup host w.clients) [ none ↦ none | some id ↦ copy_over w t (copy id t) ]
  ]

  unfoldable pub recover_hosts : Worker → ℕ → List Bytes → Option Worker
  recover_hosts w t [] = some w
  recover_hosts w t (host ∷ hosts) = elim (recover_tablet w t host) [
    | none ↦ none
    | some w' ↦ recover_hosts w' (prev1 t) hosts
  ]

  -- `res` is what the client of the coordinator returns for WorkerLookup.
  unfoldable pub recover_all_tablets : Worker → Bytes → Option Worker
  unfolding recover_hosts recover_tablet
  recover_all_tablets w res =
      if bytes_eq (take 3 res) (bytes "ERR")
      then none
      else recover_hosts w w.worker_id (getlines b';' res)

  restart : Worker → Bytes → Option Worker
  unfolding recover_all_tablets
  restart w res = elim (recover_all_tablets w res) [
    | none ↦ none
    | some w' ↦ some (record w' { worker_up = true })
  ]

  -- The end of the handler: it sets `success` also where it was set to false before.
  abbrev accepted : Worker → Outcome
  accepted w = record {
    worker = w;
    reply = record { status = success; is_success = true; content = [] };
    calls = [];
  }

  restarted : Option Worker → Option Outcome
  restarted none = none
  restarted (some w) = some (accepted w)

  unfoldable pub admin_console : Worker → Bytes → Bytes → Bytes → Option Outcome
  unfolding restart restarted
  admin_console w res password command =
      if bytes_eq password (bytes "admin")
      then if bytes_eq command (bytes "SHUTDOWN")
        then some (accepted (record w { worker_up = false }))
        else if bytes_eq command (bytes "RESTART")
        then (if w.worker_up then some (accepted w) else restarted (restart w res))
        else some (accepted w)
      else some (failed w (error invalid_argument (bytes "Invalid admin password")))

abbrev pub chunk_size : ℕ
chunk_size = 2 ^ 20

-- The chunks that were written, and whether all were; `accepts k` is the result of the `k`th
-- `Write`. A round takes a byte at least, so the length of the text is enough fuel.
unfoldable pub send_chunks : (ℕ → Bool) → ℕ → ℕ → Bytes → List Bytes × Bool
send_chunks accepts fuel k [] = ([], true)
send_chunks accepts zero k (x ∷ b) = ([], false)
send_chunks accepts (suc fuel) k (x ∷ b) = elim (accepts k) [
  | false ↦ ([], false)
  | true ↦
      let (sent, done) = send_chunks accepts fuel (suc k) (drop chunk_size (x ∷ b)) in
      (take chunk_size (x ∷ b) ∷ sent, done)
]

unfoldable pub sent_status : List Bytes × Bool → Status × List Bytes
sent_status (sent, true) = (success, sent)
sent_status (sent, false) = (error internal (bytes "Stream write failed"), sent)

-- The handler's status, and the chunks on the stream.
unfoldable pub copy_tablet : Platform → (ℕ → Bool) → Worker → ℕ → Status × List Bytes
unfolding sent_status send_chunks
copy_tablet p accepts w t =
    if w.worker_up
    then elim (get_tablet_number_on_this_worker w.worker_id t) [
      | none ↦ (error not_found (bytes "Key does not belong in this worker"), [])
      | some n ↦ elim (get_tablet w.worker_id t) [
        | none ↦ (threw, [])
        | some i ↦
            let data_bytes : Bytes = serialize_tablet (p.iterate (w.tablets i)) in
            sent_status (send_chunks accepts (length data_bytes) 0 data_bytes)
      ]
    ]
    else (error unavailable (bytes "Worker is shut down"), [])

unfoldable pub concat : List Bytes → Bytes
concat [] = []
concat (chunk ∷ chunks) = chunk ++ concat chunks

-- `KeyValueStoreClient::CopyTablet` of backend/kvs_client.h
unfoldable pub copy_tablet_client : Status × List Bytes → Bytes
unfolding concat client_result
copy_tablet_client (status, chunks) = client_result status (concat chunks)
