-- ===== src/Client.antt =====
-- The clients of backend/kvs_client.h, each on the worker or coordinator that its channel leads to.
pub mod Replies
use penn_cloud.Prelude.{ℕ, Bytes, bytes, Option, none, some, Bool, true, false, update}
use penn_cloud.Rpc.{success, client_result}
use penn_cloud.Op
use penn_cloud.Op.{Op}
use penn_cloud.Worker
use penn_cloud.Worker.{Platform, Worker, Outcome}
use penn_cloud.Worker.Restart
use penn_cloud.Coordinator
use penn_cloud.Coordinator.{Coordinator}
use penn_cloud.Cluster.{Cluster, write_at}

-- `KeyValueStoreClient` to worker `id`: the workers after the call, and the text that is returned.
module _ (p : Platform) where
  unfoldable pub get : Cluster → ℕ → Bytes → Bytes → Bytes
  get cluster id r c =
      let outcome : Outcome = Worker.get p (cluster id) r c in
      client_result outcome.reply.status outcome.reply.content

  unfoldable pub put : Cluster → ℕ → Bytes → Bytes → Bytes → Cluster × Bytes
  put cluster id r c v =
      let outcome : Outcome = Worker.put p (cluster id) r c v in
      (
        write_at p cluster id (Op.put r c v),
        client_result outcome.reply.status (bytes "PUT Successful"),
      )

  unfoldable pub cput : Cluster → ℕ → Bytes → Bytes → Bytes → Bytes → Cluster × Bytes
  cput cluster id r c current new =
      let outcome : Outcome = Worker.cput p (cluster id) r c current new in
      (
        write_at p cluster id (Op.cput r c current new),
        client_result outcome.reply.status (bytes "CPUT Successful"),
      )

  unfoldable pub delete : Cluster → ℕ → Bytes → Bytes → Cluster × Bytes
  delete cluster id r c =
      let outcome : Outcome = Worker.delete p (cluster id) r c in
      (
        write_at p cluster id (Op.delete r c),
        client_result outcome.reply.status (bytes "Delete Successful"),
      )

  unfoldable pub replicate_put : Cluster → ℕ → Bytes → Bytes → Bytes → Cluster × Bytes
  replicate_put cluster id r c v =
      let outcome : Outcome = Worker.replicate_put p (cluster id) r c v in
      (
        update cluster id outcome.worker,
        client_result outcome.reply.status (bytes "PUT Successful"),
      )

  unfoldable pub replicate_cput : Cluster → ℕ → Bytes → Bytes → Bytes → Bytes → Cluster × Bytes
  replicate_cput cluster id r c current new =
      let outcome : Outcome = Worker.replicate_cput p (cluster id) r c current new in
      (
        update cluster id outcome.worker,
        client_result outcome.reply.status (bytes "CPUT Successful"),
      )

  unfoldable pub replicate_delete : Cluster → ℕ → Bytes → Bytes → Cluster × Bytes
  replicate_delete cluster id r c =
      let outcome : Outcome = Worker.replicate_delete p (cluster id) r c in
      (
        update cluster id outcome.worker,
        client_result outcome.reply.status (bytes "Delete Successful"),
      )

abbrev admin_result : Cluster → ℕ → Option Outcome → Option (Cluster × Bytes)
admin_result cluster id none = none
admin_result cluster id (some outcome) = some (
  update cluster id outcome.worker,
  client_result outcome.reply.status (bytes "AdminConsole request successful"),
)

-- `copy` and `res` are what the worker's own clients return while it restarts.
unfoldable pub admin_console :
    (ℕ → ℕ → Bytes) → Cluster → ℕ → Bytes → Bytes → Bytes → Option (Cluster × Bytes)
admin_console copy cluster id res password command =
    admin_result cluster id (Restart.admin_console copy (cluster id) res password command)

-- `MasterNodeClient`.
unfoldable pub lookup : (Bytes → ℕ) → Coordinator → Bytes → Coordinator × Bytes
lookup hash m key =
    let (m', status, worker) = Coordinator.lookup hash m key in (m', client_result status worker)

unfoldable pub heartbeat : Coordinator → ℕ → ℕ → Coordinator × Bytes
heartbeat m id now =
    (Coordinator.heartbeat m id now, client_result success (bytes "Heartbeat Successful"))

abbrev alive_text : Bool → Bytes
alive_text true = bytes "Alive"
alive_text false = bytes "Dead"

unfoldable pub alive : Coordinator → ℕ → Bytes
alive m id = let (status, up) = Coordinator.alive m id in client_result status (alive_text up)
