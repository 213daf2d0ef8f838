-- ===== src/Cluster/Replication.antt =====
-- While all workers are up, the six of them implement one map, and every tablet stands three times.
pub mod Refines
use penn_cloud.Prelude.{
  ℕ, Bytes, bytes_eq, bytes_eq_iff, ◌≡◌, ◌≢◌, refl, ap, sym, ◌∙◌, Option, none, some, Bool, true,
  false, ◌&&◌, List, [], ◌∷◌, map, arith, ◌==◌, ==_iff, if◌then◌else◌, update, Bool-cases, inl, inr,
}
use penn_cloud.Tablet.{Tablet, cell}
use penn_cloud.Placement.{
  num_tablets, next1, next2, get_tablet, connect, Clients, get_replicas_for_replication,
  hash_to_bucket,
}
use penn_cloud.Placement.Hosts.{IsNode, targets, get_replicas-targets, hash_to_bucket-IsNode}
use penn_cloud.Op.{Op, Applied, refused, applied, apply, row}
use penn_cloud.KeyValue.{KeyValue, column, result, cell-apply, write-eq, write-row}
use penn_cloud.KeyValue
use penn_cloud.Worker.{Platform, Worker, Call, Outcome, bucket, replicate_write, replicate, init}
use penn_cloud.Worker
use penn_cloud.Worker.Effect.{SameSetup, Effect, write-Effect, calls_if}
use penn_cloud.Cluster.{Cluster, start, deliver, deliver_all, write_at}
use penn_cloud.Cluster.Change.{Change, SameSetup-trans, Effect-Change, deliver-Change}

-- Every worker is up, goes by its number and has a client for each of the others.
pub record IsReady (d : Cluster) : Type 0 where
  pub worker_id : (id : ℕ) → IsNode id → (d id).worker_id ≡ id
  pub worker_up : (id : ℕ) → IsNode id → (d id).worker_up ≡ true
  pub clients : (id : ℕ) → IsNode id → (d id).clients ≡ connect id

-- The three copies of a tablet show the values of the map.
abbrev pub Shows : Cluster → ℕ → Bytes → Bytes → Option Bytes → Type 0
Shows d t r c v =
    (cell r c ((d t).tablets 0) ≡ v)
    × (cell r c ((d (next1 t)).tablets 1) ≡ v)
    × (cell r c ((d (next2 t)).tablets 2) ≡ v)

pub record Implements (p : Platform) (d : Cluster) (f : KeyValue) : Type 0 where
  pub copies : (r c : Bytes) → Shows d (bucket p r) r c (f r c)

pub places :
    (t : ℕ)
    → IsNode t
    → (get_tablet t t ≡ some 0)
      × (get_tablet (next1 t) t ≡ some 1)
      × (get_tablet (next2 t) t ≡ some 2)
unfolding get_tablet
places t h = ground arith

nodes : (t : ℕ) → IsNode (next1 t) × IsNode (next2 t)
nodes t = omega arith

Change-IsReady : (op : Op) (x i : ℕ) (d e : Cluster) → Change op x i d e → IsReady d → IsReady e
Change-IsReady op x i d e c r = record {
  worker_id = λ id h. (c.setup id).worker_id ∙ r.worker_id id h;
  worker_up = λ id h. (c.setup id).worker_up ∙ r.worker_up id h;
  clients = λ id h. (c.setup id).clients ∙ r.clients id h;
}

abbrev call_to : Op → Option ℕ → Call
call_to op id = record { to = id; op = op }

calls-targets :
    (op : Op) (replicas : List (Bytes × Option ℕ))
    → map (λ (replica : Bytes × Option ℕ). call_to op replica.1) replicas
      ≡ map (call_to op) (map (λ (replica : Bytes × Option ℕ). replica.1) replicas)
calls-targets op [] = refl
calls-targets op (replica ∷ replicas) = ap (◌∷◌ (call_to op replica.1)) (calls-targets op replicas)

-- The calls of a primary.
replicate-primary :
    (p : Platform) (w : Worker) (op : Op) (t : ℕ)
    → IsNode t
    → bucket p (row op) ≡ t
    → w.worker_id ≡ t
    → w.clients ≡ connect t
    → replicate p w op ≡ call_to op (some (next1 t)) ∷ call_to op (some (next2 t)) ∷ []
unfolding replicate
replicate-primary p w op t h b e c =
    rw (e, c, b)
      (calls-targets op (get_replicas_for_replication t t (connect t))
        ∙ ap (map (call_to op)) (get_replicas-targets t h).0)

module _ (p : Platform) (op : Op) (d : Cluster) (ready : IsReady d) where
  abbrev t : ℕ
  t = bucket p (row op)

  t-IsNode : IsNode t
  t-IsNode = hash_to_bucket-IsNode p.hash (row op)

  -- A write on one of the workers that hold the tablet.
  deliver_to :
      (x i : ℕ) (e : Cluster)
      → IsReady e
      → IsNode x
      → get_tablet x t ≡ some i
      → Change op x i e (deliver p e (call_to op (some x)))
  deliver_to x i e r h place =
      deliver-Change p op x i e (r.worker_up x h)
        (ap (λ w. get_tablet w t) (r.worker_id x h) ∙ place)

  -- The primary's own part.
  abbrev outcome : Outcome
  outcome = Worker.write p (d t) op

  abbrev d1 : Cluster
  d1 = update d t outcome.worker

  abbrev d2 : Cluster
  d2 = deliver p d1 (call_to op (some (next1 t)))

  abbrev d3 : Cluster
  d3 = deliver p d2 (call_to op (some (next2 t)))

  primary-Effect : Effect p (d t) op 0 (replicate p (d t) op) outcome
  primary-Effect =
      (write-Effect p (d t) op 0 (ready.worker_up t t-IsNode)
        (ap (λ w. get_tablet w t) (ready.worker_id t t-IsNode) ∙ (places t t-IsNode).0)).0

  change1 : Change op t 0 d d1
  change1 = Effect-Change p op t 0 d (replicate p (d t) op) outcome primary-Effect

  change2 : Change op (next1 t) 1 d1 d2
  change2 =
      deliver_to (next1 t) 1 d1 (Change-IsReady op t 0 d d1 change1 ready) (nodes t).0
        (places t t-IsNode).1

  change3 : Change op (next2 t) 2 d2 d3
  change3 =
      deliver_to (next2 t) 2 d2
        (Change-IsReady op (next1 t) 1 d1 d2 change2 (Change-IsReady op t 0 d d1 change1 ready))
        (nodes t).1 (places t t-IsNode).2

  -- The others are called if the primary accepts the write.
  write_at-result :
      (answer : Applied)
      → apply op ((d t).tablets 0) ≡ answer
      → write_at p d t op ≡ elim answer [ refused code message ↦ d1 | applied u ↦ d3 ]
  unfolding write_at
  write_at-result (refused code message) e =
      ap (deliver_all p d1) (primary-Effect.calls ∙ ap (λ a. calls_if a (replicate p (d t) op)) e)
  write_at-result (applied u) e = ap (deliver_all p d1) (
      primary-Effect.calls
      ∙ ap (λ a. calls_if a (replicate p (d t) op)) e
      ∙ replicate-primary p (d t) op t t-IsNode refl (ready.worker_id t t-IsNode)
          (ready.clients t t-IsNode))
