-- ===== src/Worker/Effect.antt =====
-- What a write does to the tablets of a worker that is up and holds the key's tablet, and what it
-- sends on.
use penn_cloud.Prelude.{ℕ, suc, ◌≡◌, refl, some, true, false, List, [], arith, ◌==◌}
use mathlib.Core.Path.{subst}
use penn_cloud.Placement.{get_tablet}
use penn_cloud.Op.{Op, Applied, refused, applied, apply, row}
use penn_cloud.KeyValue.{result}
use penn_cloud.Worker.{
  Platform, Worker, Outcome, Call, bucket, with_tablet, record_update, written, replicate, write,
  replicate_write,
}
use penn_cloud.Worker.Writes.{with_tablet_lem}

-- What stays: the worker's number, its switch and its clients.
pub record SameSetup (v w : Worker) : Type 0 where
  pub worker_id : v.worker_id ≡ w.worker_id
  pub worker_up : v.worker_up ≡ w.worker_up
  pub clients : v.clients ≡ w.clients

abbrev pub calls_if : Applied → List Call → List Call
calls_if (refused code message) calls = []
calls_if (applied t) calls = calls

module _ (p : Platform) (w : Worker) (op : Op) where
  -- One place holds the result of the write, and nothing else changes but files and counters.
  pub record Effect (i : ℕ) (sends : List Call) (o : Outcome) : Type 0 where
    pub at_place : o.worker.tablets i ≡ result (w.tablets i) (apply op (w.tablets i))
    pub elsewhere : (j : ℕ) → (i == j) ≡ false → o.worker.tablets j ≡ w.tablets j
    pub setup : SameSetup o.worker w
    pub calls : o.calls ≡ calls_if (apply op (w.tablets i)) sends

  written-Effect :
      (i : ℕ) (calls : List Call) (answer : Applied)
      → apply op (w.tablets i) ≡ answer
      → Effect i calls (written p w (suc i) i i op calls answer)
  unfolding written record_update
  written-Effect i calls (refused code message) e = record {
    at_place = rw e;
    elsewhere = λ j h. refl;
    setup = record { worker_id = refl; worker_up = refl; clients = refl };
    calls = rw e;
  }
  written-Effect i calls (applied t) e = record {
    at_place = ground arith;
    elsewhere = λ j h. ground arith;
    setup = ground arith;
    calls = ground arith;
  }

  -- The handler goes on at the key's tablet.
  at_place_of :
      (i : ℕ) (body : ℕ → ℕ → ℕ → Outcome)
      → w.worker_up ≡ true
      → get_tablet w.worker_id (bucket p (row op)) ≡ some i
      → body (suc i) i i ≡ with_tablet p w (row op) body
  at_place_of i body up place = ground (arith, with_tablet_lem p w (row op) body)

  pub write-Effect :
      (i : ℕ)
      → w.worker_up ≡ true
      → get_tablet w.worker_id (bucket p (row op)) ≡ some i
      → Effect i (replicate p w op) (write p w op) × Effect i [] (replicate_write p w op)
  unfolding write replicate_write
  write-Effect i up place = (
    subst (Effect i (replicate p w op)) (at_place_of i _ up place)
        (written-Effect i (replicate p w op) _ refl),
    subst (Effect i []) (at_place_of i _ up place) (written-Effect i [] _ refl),
  )
