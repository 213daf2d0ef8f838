-- ===== src/Worker.antt =====
-- A worker of backend/worker.cc: its memory and its files, and the handlers of its service.
-- Text for the console is left out, and files can always be written.
pub mod Files
pub mod Durable
pub mod Writes
pub mod Restart
pub mod Crash
pub mod Copy
pub mod Effect
use penn_cloud.Prelude.{
  ℕ, ◌+◌, Bytes, bytes, bytes_eq, Option, none, some, Bool, true, false, List, [], ◌∷◌, leb,
  if◌then◌else◌, update, map,
}
use penn_cloud.Map.{lookup}
use penn_cloud.Tablet
use penn_cloud.Tablet.{Tablet, Found, no_row, no_column, value}
use penn_cloud.Serializer.{serialize_tablet}
use penn_cloud.Logger.{CommandLog, log_command, clear_log}
use penn_cloud.Rpc.{Status, success, error, threw, not_found, unavailable}
use penn_cloud.Placement.{
  num_tablets, hash_to_bucket, get_tablet, get_logger, get_tablet_number_on_this_worker, Clients,
  connect, get_replicas_for_replication,
}
use penn_cloud.Op.{Op, Applied, refused, applied, apply, log_entry, row}

-- What the program takes from the standard library and does not fix: the hash of a string, and
-- the order in which the maps of a tablet are iterated.
pub record Platform : Type 0 where
  pub hash : Bytes → ℕ
  pub iterate : Tablet → Tablet

-- `tablets` and `logs` (the files of `loggers`) are vectors of three, `update_request_count` and
-- `checkpoints` (the files `..._tablet<n>.bin`) go by the tablets' numbers 1 to 3.
pub record Worker : Type 0 where
  pub worker_id : ℕ
  pub tablets : ℕ → Tablet
  pub logs : ℕ → Bytes
  pub update_request_count : ℕ → ℕ
  pub checkpoints : ℕ → Option Bytes
  pub worker_up : Bool
  pub clients : Clients

-- A worker on its first start, when no file is there yet.
unfoldable pub init : ℕ → Worker
init id = record {
  worker_id = id;
  tablets = λ i. [];
  logs = λ i. [];
  update_request_count = λ n. 0;
  checkpoints = λ n. none;
  worker_up = true;
  clients = connect id;
}

-- The status and the fields of the reply: `success` is false and `value` empty until they are set.
pub record Reply : Type 0 where
  pub status : Status
  pub is_success : Bool
  pub content : Bytes

-- A call of one of the Replicate methods: the worker that the client talks to, if the client is
-- no null pointer, and the request. Its result is only reported on the console.
pub record Call : Type 0 where
  pub to : Option ℕ
  pub op : Op

pub record Outcome : Type 0 where
  pub worker : Worker
  pub reply : Reply
  pub calls : List Call

abbrev pub max_update_count : ℕ
max_update_count = 10

abbrev pub failed : Worker → Status → Outcome
failed w status = record {
  worker = w;
  reply = record { status = status; is_success = false; content = [] };
  calls = [];
}

module _ (p : Platform) where
  abbrev pub bucket : Bytes → ℕ
  bucket key = hash_to_bucket p.hash key num_tablets

  -- The tests at the head of every handler that takes a row key, and the look-ups after them.
  unfoldable pub with_tablet : Worker → Bytes → (ℕ → ℕ → ℕ → Outcome) → Outcome
  with_tablet w key body =
      if w.worker_up
      then elim (get_tablet_number_on_this_worker w.worker_id (bucket key)) [
        | none ↦ failed w (error not_found (bytes "Key does not belong in this worker"))
        | some n ↦ elim (get_tablet w.worker_id (bucket key)) [
          | none ↦ failed w threw
          | some i ↦ elim (get_logger w.worker_id (bucket key)) [
            | none ↦ failed w threw
            | some l ↦ body n i l
          ]
        ]
      ]
      else failed w (error unavailable (bytes "Worker is shut down"))

  unfoldable pub get : Worker → Bytes → Bytes → Outcome
  unfolding with_tablet
  get w r c = with_tablet w r λ n i l. elim (Tablet.get r c (w.tablets i)) [
    | no_row ↦ failed w (error not_found (bytes "Row key not found"))
    | no_column ↦ failed w (error not_found (bytes "Column key not found"))
    | value v ↦ record {
      worker = w;
      reply = record { status = success; is_success = true; content = v };
      calls = [];
    }
  ]

  -- The checkpoint of tablet number `n`, and a fresh log.
  commit_checkpoint : Worker → ℕ → ℕ → ℕ → Worker
  commit_checkpoint w n i l = record w {
    checkpoints = update w.checkpoints n (some (serialize_tablet (p.iterate (w.tablets i))));
    logs = update w.logs l (clear_log (w.logs l));
    update_request_count = update w.update_request_count n 0;
  }

  -- What follows a write in every handler: the entry in the log, the counter, the checkpoint.
  unfoldable pub record_update : Worker → ℕ → ℕ → ℕ → CommandLog → Worker
  unfolding commit_checkpoint
  record_update w n i l cl =
      let logged : Worker = record w {
        logs = update w.logs l (log_command cl (w.logs l));
        update_request_count = update w.update_request_count n (w.update_request_count n + 1);
      } in
      if leb max_update_count (logged.update_request_count n)
      then commit_checkpoint logged n i l
      else logged

  written : Worker → ℕ → ℕ → ℕ → Op → List Call → Applied → Outcome
  written w n i l op calls (refused code message) = failed w (error code message)
  written w n i l op calls (applied t) = record {
    worker = record_update (record w { tablets = update w.tablets i t }) n i l (log_entry op);
    reply = record { status = success; is_success = true; content = [] };
    calls = calls;
  }

  -- The calls that send a write on to the replicas.
  unfoldable pub replicate : Worker → Op → List Call
  replicate w op =
      map (λ (replica : Bytes × Option ℕ). record { to = replica.1; op = op })
        (get_replicas_for_replication w.worker_id (bucket (row op)) w.clients)

  unfoldable pub write : Worker → Op → Outcome
  unfolding with_tablet written record_update replicate
  write w op =
      with_tablet w (row op) λ n i l. written w n i l op (replicate w op) (apply op (w.tablets i))

  unfoldable pub replicate_write : Worker → Op → Outcome
  unfolding with_tablet written record_update
  replicate_write w op =
      with_tablet w (row op) λ n i l. written w n i l op [] (apply op (w.tablets i))

  -- The handlers of the service's six methods that write.
  unfoldable pub put : Worker → Bytes → Bytes → Bytes → Outcome
  unfolding write
  put w r c v = write w (Op.put r c v)

  unfoldable pub cput : Worker → Bytes → Bytes → Bytes → Bytes → Outcome
  unfolding write
  cput w r c current new = write w (Op.cput r c current new)

  unfoldable pub delete : Worker → Bytes → Bytes → Outcome
  unfolding write
  delete w r c = write w (Op.delete r c)

  unfoldable pub replicate_put : Worker → Bytes → Bytes → Bytes → Outcome
  unfolding replicate_write
  replicate_put w r c v = replicate_write w (Op.put r c v)

  unfoldable pub replicate_cput : Worker → Bytes → Bytes → Bytes → Bytes → Outcome
  unfolding replicate_write
  replicate_cput w r c current new = replicate_write w (Op.cput r c current new)

  unfoldable pub replicate_delete : Worker → Bytes → Bytes → Outcome
  unfolding replicate_write
  replicate_delete w r c = replicate_write w (Op.delete r c)
