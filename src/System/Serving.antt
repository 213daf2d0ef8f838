-- ===== src/System/Serving.antt =====
-- The six workers and their coordinator are a store that the front end can use.
use penn_cloud.Prelude.{ℕ, Bytes, bytes_eq, ◌≡◌, refl, sym, ap, ◌∙◌, Option, some, true, false, inl}
use mathlib.Core.Path.{subst}
use penn_cloud.Rpc.{client_result}
use penn_cloud.Placement.{address}
use penn_cloud.Placement.Hosts.{IsNode, hash_to_bucket-IsNode}
use penn_cloud.Op.{Op, put, cput, delete, row}
use penn_cloud.KeyValue
use penn_cloud.KeyValue.{KeyValue}
use penn_cloud.Worker.{Platform, bucket}
use penn_cloud.Coordinator.Routing.{lookup-primary}
use penn_cloud.Cluster.{Cluster, write_at}
use penn_cloud.Cluster.Replication.{IsReady, Implements}
use penn_cloud.Cluster.Replication.Refines.{write_at-Implements, write_at-IsReady}
use penn_cloud.Client
use penn_cloud.Client.Replies.{Reads, get-Implements}
use penn_cloud.Service.{is_err, Serves}
use penn_cloud.System.{System, send, store}

-- Every worker is up and taken for alive, under its address, and the copies show the map.
pub record Shows (p : Platform) (s : System) (f : KeyValue) : Type 0 where
  pub ready : IsReady s.cluster
  pub agree : Implements p s.cluster f
  pub alive : (id : ℕ) → IsNode id → s.master.is_alive id ≡ some true
  pub hosts : (id : ℕ) → IsNode id → s.master.host_map id ≡ some (address id)

-- The address of the primary of the key's tablet.
abbrev pub At : Platform → System → Bytes → Bytes → Type 0
At p s host key = host ≡ address (bucket p key)

send-write_at :
    (p : Platform) (d : Cluster) (id : ℕ) (op : Op) → (send p d id op).0 ≡ write_at p d id op
unfolding send Client.put Client.cput Client.delete
send-write_at p d id (put r c v) = refl
send-write_at p d id (cput r c current new) = refl
send-write_at p d id (delete r c) = refl

address-not_err : (id : ℕ) → is_err (address id) ≡ false
unfolding is_err address bytes_eq
address-not_err id = refl

module _ (p : Platform) (reach : Bytes → ℕ)
    (reaches : (id : ℕ) → IsNode id → reach (address id) ≡ id) where
  bucket-IsNode : (key : Bytes) → IsNode (bucket p key)
  bucket-IsNode key = hash_to_bucket-IsNode p.hash key

  found :
      (s : System) (f : KeyValue) (key : Bytes)
      → Shows p s f
      → Shows p ((store p reach).lookup s key).0 f
        × (((store p reach).lookup s key).1 ≡ address (bucket p key))
  unfolding store Client.lookup client_result
  found s f key shows =
      let node = bucket-IsNode key in
      let (up, named, ok, host) =
        lookup-primary p.hash s.master key (address (bucket p key)) (shows.alive _ node)
          (shows.hosts _ node) in
      (
        record {
          ready = shows.ready;
          agree = shows.agree;
          alive = λ id h. up id (shows.alive id h);
          hosts = λ id h. ap (λ (m : ℕ → Option Bytes). m id) named ∙ shows.hosts id h;
        },
        rw (ok, client_result) host,
      )

  reads :
      (s : System) (f : KeyValue) (host r c : Bytes)
      → Shows p s f
      → At p s host r
      → Reads ((store p reach).get s host r c) (f r c)
  unfolding store
  reads s f host r c shows at =
      get-Implements p s.cluster f (reach host) r c shows.ready shows.agree
        (subst IsNode (sym (ap reach at ∙ reaches _ (bucket-IsNode r))) (bucket-IsNode r))
        (inl (ap reach at ∙ reaches _ (bucket-IsNode r)))

  written :
      (s : System) (f : KeyValue) (host : Bytes) (op : Op)
      → Shows p s f
      → At p s host (row op)
      → Shows p ((store p reach).write s host op).0 (KeyValue.write op f)
  unfolding store
  written s f host op shows at =
      let place : reach host ≡ bucket p (row op) =
        ap reach at ∙ reaches _ (bucket-IsNode (row op)) in
      let same : (send p s.cluster (reach host) op).0
          ≡ write_at p s.cluster (bucket p (row op)) op =
        send-write_at p s.cluster (reach host) op ∙ ap (λ n. write_at p s.cluster n op) place in
      record {
        ready =
            subst IsReady (sym same) (write_at-IsReady p op s.cluster shows.ready f shows.agree);
        agree =
            subst (λ d. Implements p d (KeyValue.write op f)) (sym same)
              (write_at-Implements p op s.cluster shows.ready f shows.agree);
        alive = shows.alive;
        hosts = shows.hosts;
      }

  -- Six workers that are up, taken for alive under their addresses and whose copies show a map are,
  -- with their coordinator and the clients on them, a store that serves the map: look-up of a key
  -- names the primary of its tablet, a client there reads a value as it is and a missing one as an
  -- error text, and each write changes the map as it promises; a channel to a worker's address must
  -- lead to that worker.
  pub store-Serves : Serves (store p reach) (Shows p) (At p)
  store-Serves = record {
    lookup_shows = λ s f key shows. (found s f key shows).0;
    lookup_host =
        λ s f key shows. ap is_err (found s f key shows).1 ∙ address-not_err (bucket p key);
    lookup_at = λ s f key shows. (found s f key shows).1;
    get_value = λ s f host r c v shows at e.
        subst (Reads ((store p reach).get s host r c)) e (reads s f host r c shows at);
    get_missing = λ s f host r c shows at e.
        subst (Reads ((store p reach).get s host r c)) e (reads s f host r c shows at);
    write_shows = written;
    write_keeps_at = λ s host key h op at. at;
  }
