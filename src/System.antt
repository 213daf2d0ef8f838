-- ===== src/System.antt =====
-- The store as the front end meets it: the coordinator, the workers and the clients on them.
pub mod Serving
pub mod Answering
pub mod Uploads
use penn_cloud.Prelude.{ℕ, Bytes}
use penn_cloud.Op.{Op, put, cput, delete}
use penn_cloud.Worker.{Platform}
use penn_cloud.Coordinator.{Coordinator}
use penn_cloud.Cluster.{Cluster}
use penn_cloud.Client
use penn_cloud.Service.{Service}

pub record System : Type 0 where
  pub cluster : Cluster
  pub master : Coordinator

-- The methods Put, CPut and Delete of a client on worker `id`.
unfoldable pub send : Platform → Cluster → ℕ → Op → Cluster × Bytes
unfolding Client.put Client.cput Client.delete
send p d id (put r c v) = Client.put p d id r c v
send p d id (cput r c current new) = Client.cput p d id r c current new
send p d id (delete r c) = Client.delete p d id r c

-- `reach host` is the worker that a channel to the address leads to.
unfoldable pub store : Platform → (Bytes → ℕ) → Service System
unfolding Client.lookup Client.get send
store p reach = record {
  lookup =
      λ s key. let (m, host) = Client.lookup p.hash s.master key in (record s { master = m }, host);
  get = λ s host r c. Client.get p s.cluster (reach host) r c;
  write = λ s host op.
      let (d, text) = send p s.cluster (reach host) op in (record s { cluster = d }, text);
}
