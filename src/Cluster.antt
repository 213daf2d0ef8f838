-- ===== src/Cluster.antt =====
-- The six workers together: what a write on the worker that a client talks to does on the others.
-- A call of another worker runs that worker's handler and comes back before the next is made.
pub mod Change
pub mod Replication
use penn_cloud.Prelude.{ℕ, Bytes, Option, none, some, List, [], ◌∷◌, ◌==◌, if◌then◌else◌, update}
use penn_cloud.Op.{Op}
use penn_cloud.Worker
use penn_cloud.Worker.{Platform, Worker, Call, Outcome}

-- The workers by their numbers.
abbrev pub Cluster : Type 0
Cluster = ℕ → Worker

abbrev pub start : Cluster
start id = Worker.init id

module _ (p : Platform) where
  -- A call through a null pointer ends the calling process; it is left out here, since no client
  -- is null (`Placement.Hosts.get_replicas-targets`).
  pub deliver : Cluster → Call → Cluster
  deliver cluster call = elim call.to [
    | none ↦ cluster
    | some id ↦ update cluster id (Worker.replicate_write p (cluster id) call.op).worker
  ]

  unfoldable pub deliver_all : Cluster → List Call → Cluster
  unfolding deliver
  deliver_all cluster [] = cluster
  deliver_all cluster (call ∷ calls) = deliver_all (deliver cluster call) calls

  -- A client's write on worker `id`.
  unfoldable pub write_at : Cluster → ℕ → Op → Cluster
  unfolding deliver_all
  write_at cluster id op =
      let outcome : Outcome = Worker.write p (cluster id) op in
      deliver_all (update cluster id outcome.worker) outcome.calls
