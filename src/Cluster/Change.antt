-- ===== src/Cluster/Change.antt =====
-- One worker of the cluster writes one tablet.
use penn_cloud.Prelude.{
  ℕ, ◌≡◌, refl, ap, ◌∙◌, some, true, false, ◌&&◌, List, [], arith, ◌==◌, ==_iff, update, Bool-cases,
  inl, inr,
}
use mathlib.Core.Path.{subst}
use penn_cloud.Placement.{get_tablet}
use penn_cloud.Op.{Op, apply, row}
use penn_cloud.KeyValue.{result}
use penn_cloud.Worker.{Platform, Worker, Call, Outcome, bucket}
use penn_cloud.Worker.Effect.{SameSetup, Effect, write-Effect}
use penn_cloud.Cluster.{Cluster, deliver}

SameSetup-refl : (w : Worker) → SameSetup w w
SameSetup-refl w = record { worker_id = refl; worker_up = refl; clients = refl }

pub SameSetup-trans : (u v w : Worker) → SameSetup u v → SameSetup v w → SameSetup u w
SameSetup-trans u v w a b = record {
  worker_id = a.worker_id ∙ b.worker_id;
  worker_up = a.worker_up ∙ b.worker_up;
  clients = a.clients ∙ b.clients;
}

-- From `d` to `e`, the tablet at place `i` of worker `x` takes the write, and no other changes.
pub record Change (op : Op) (x i : ℕ) (d e : Cluster) : Type 0 where
  pub here : (e x).tablets i ≡ result ((d x).tablets i) (apply op ((d x).tablets i))
  pub others : (y j : ℕ) → ((x == y) && (i == j)) ≡ false → (e y).tablets j ≡ (d y).tablets j
  pub setup : (y : ℕ) → SameSetup (e y) (d y)

module _ (p : Platform) (op : Op) (x i : ℕ) (d : Cluster) where
  pub Effect-Change :
      (sends : List Call) (o : Outcome)
      → Effect p (d x) op i sends o
      → Change op x i d (update d x o.worker)
  Effect-Change sends o f = record {
    here = rw ((==_iff x x).1 refl) f.at_place;
    others = λ y j h. elim (Bool-cases (x == y)) [
      | inl e ↦
          rw e (f.elsewhere j (ground arith) ∙ ap (λ (k : ℕ). (d k).tablets j) ((==_iff x y).0 e))
      | inr e ↦ rw e
    ];
    setup = λ y. elim (Bool-cases (x == y)) [
      | inl e ↦ rw e (subst (λ k. SameSetup o.worker (d k)) ((==_iff x y).0 e) f.setup)
      | inr e ↦ rw e (SameSetup-refl (d y))
    ];
  }

  pub deliver-Change :
      (d x).worker_up ≡ true
      → get_tablet (d x).worker_id (bucket p (row op)) ≡ some i
      → Change op x i d (deliver p d (record { to = some x; op = op }))
  unfolding deliver
  deliver-Change up place = Effect-Change [] _ (write-Effect p (d x) op i up place).1
