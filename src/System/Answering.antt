-- ===== src/System/Answering.antt =====
-- The worker that a request of the front end reaches, and what it answers to a write.
use penn_cloud.Prelude.{
  ℕ, Bytes, bytes, bytes_eq, ◌≡◌, refl, sym, ap, ◌∙◌, some, true, false, arith,
}
use mathlib.Core.Path.{subst}
use penn_cloud.Rpc.{client_result}
use penn_cloud.Op.{apply}
use penn_cloud.Placement.{address, get_tablet}
use penn_cloud.Placement.Hosts.{IsNode, hash_to_bucket-IsNode, get_tablet-number}
use penn_cloud.KeyValue.{KeyValue}
use penn_cloud.Service.{is_err, Answers}
use penn_cloud.Worker
use penn_cloud.Worker.{Platform, bucket}
use penn_cloud.Cluster.{Cluster}
use penn_cloud.Cluster.Replication.{places}
use penn_cloud.Client
use penn_cloud.System.{System, send, store}
use penn_cloud.System.Serving.{Shows, At}

put-answer :
    (p : Platform) (d : Cluster) (id i : ℕ) (r c v : Bytes)
    → (d id).worker_up ≡ true
    → get_tablet (d id).worker_id (bucket p r) ≡ some i
    → (Client.put p d id r c v).1 ≡ bytes "PUT Successful"
unfolding Client.put Worker.put Worker.write Worker.with_tablet apply client_result
put-answer p d id i r c v up place = ground (arith, get_tablet-number (d id).worker_id (bucket p r))

delete-answer :
    (p : Platform) (d : Cluster) (id i : ℕ) (r c : Bytes)
    → (d id).worker_up ≡ true
    → get_tablet (d id).worker_id (bucket p r) ≡ some i
    → (Client.delete p d id r c).1 ≡ bytes "Delete Successful"
unfolding Client.delete Worker.delete Worker.write Worker.with_tablet apply client_result
delete-answer p d id i r c up place =
    ground (arith, get_tablet-number (d id).worker_id (bucket p r))

is_err-put : is_err (bytes "PUT Successful") ≡ false
unfolding is_err bytes_eq
is_err-put = refl

is_err-delete : is_err (bytes "Delete Successful") ≡ false
unfolding is_err bytes_eq
is_err-delete = refl

module _ (p : Platform) (reach : Bytes → ℕ)
    (reaches : (id : ℕ) → IsNode id → reach (address id) ≡ id) where
  -- At the address of the row's primary, the worker reached is up and loads the row's tablet first.
  pub primary :
      (s : System) (f : KeyValue) (host r : Bytes)
      → Shows p s f
      → At p s host r
      → ((s.cluster (reach host)).worker_up ≡ true)
        × (get_tablet (s.cluster (reach host)).worker_id (bucket p r) ≡ some 0)
  primary s f host r shows at =
      let node : IsNode (bucket p r) = hash_to_bucket-IsNode p.hash r in
      subst
        (λ id.
          ((s.cluster id).worker_up ≡ true)
          × (get_tablet (s.cluster id).worker_id (bucket p r) ≡ some 0))
        (sym (ap reach at ∙ reaches _ node))
        (
          shows.ready.worker_up _ node,
          ap (λ n. get_tablet n (bucket p r)) (shows.ready.worker_id _ node)
              ∙ (places (bucket p r) node).0,
        )

  -- What the six workers answer to a write of the front end is no error text.
  store-Answers : Answers (store p reach) (Shows p) (At p)
  unfolding store send
  store-Answers = record {
    put_ok = λ s f host r c v shows at.
        let (up, place) = primary s f host r shows at in
        ap is_err (put-answer p s.cluster (reach host) 0 r c v up place) ∙ is_err-put;
    delete_ok = λ s f host r c shows at.
        let (up, place) = primary s f host r shows at in
        ap is_err (delete-answer p s.cluster (reach host) 0 r c up place) ∙ is_err-delete;
  }
