-- ===== src/Worker/Writes.antt =====
-- Every write of a worker keeps its disk in step with its memory.
use penn_cloud.Prelude.{
  bytes, ℕ, suc, ◌+◌, Bytes, ◌≡◌, refl, sym, Option, none, some, Bool, true, false, List, [], arith,
  leb, ◌==◌, ==_iff, if◌then◌else◌, update, Bool-cases, inl, inr,
}
use mathlib.Core.Path.{subst}
use penn_cloud.Tablet.{Tablet}
use penn_cloud.Tablet.Form.{IsFormed}
use penn_cloud.Serializer.{serialize_tablet}
use penn_cloud.Serializer.RoundTrip.{FitsTablet}
use penn_cloud.Logger.{log_command, clear_log}
use penn_cloud.Logger.Torn.{FitsLog}
use penn_cloud.Rpc.{Status, error, not_found, unavailable}
use penn_cloud.Placement.{get_tablet}
use penn_cloud.Placement.Hosts.{get_tablet-number}
use penn_cloud.Op.{Op, Applied, refused, applied, apply, log_entry, row}
use penn_cloud.Op.Replay.{SameCells}
use penn_cloud.Worker.{
  Platform, Worker, Outcome, Call, failed, max_update_count, bucket, with_tablet, record_update,
  written, replicate, write, replicate_write,
}
use penn_cloud.Worker.Durable.{IsDurable, IsDurable-eq, IsDurable-log, IsDurable-checkpoint}

-- Iterating over the maps of a tablet meets every binding once.
pub record Iterates (p : Platform) : Type 0 where
  pub cells : (t : Tablet) → SameCells (p.iterate t) t
  pub formed : (t : Tablet) → IsFormed t → IsFormed (p.iterate t)

-- Memory and disk of all three tablets agree. Tablet number `suc i` has place `i` in the vectors.
pub record AllDurable (w : Worker) : Type 0 where
  pub at : (i : ℕ) → IsDurable (w.tablets i) (w.logs i) (w.checkpoints (suc i))

-- The sizes that a checkpoint would write.
pub record HasCapacity (p : Platform) (w : Worker) : Type 0 where
  pub at : (i : ℕ) → FitsTablet (p.iterate (w.tablets i))

module _ (p : Platform) where
  -- What a handler makes of a worker when it writes `t` at place `i`.
  abbrev pub after : Worker → ℕ → Op → Tablet → Worker
  after w i op t =
      record_update p (record w { tablets = update w.tablets i t }) (suc i) i i (log_entry op)

  -- The disk after a write: at the tablet that was written, and at the others.
  record_update_here :
      (w : Worker) (i : ℕ) (op : Op) (t : Tablet)
      → let u = after w i op t in
        let due = leb max_update_count (w.update_request_count (suc i) + 1) in
        (u.tablets i ≡ t)
        × (u.logs i ≡ (
            if due
            then clear_log (log_command (log_entry op) (w.logs i))
            else log_command (log_entry op) (w.logs i)))
        × (u.checkpoints (suc i)
            ≡ (if due then some (serialize_tablet (p.iterate t)) else w.checkpoints (suc i)))
  unfolding record_update
  record_update_here w i op t = ground arith

  record_update_elsewhere :
      (w : Worker) (i j : ℕ) (op : Op) (t : Tablet)
      → (i == j) ≡ false
      → let u = after w i op t in
        (u.tablets j ≡ w.tablets j)
        × (u.logs j ≡ w.logs j)
        × (u.checkpoints (suc j) ≡ w.checkpoints (suc j))
  unfolding record_update
  record_update_elsewhere w i j op t h = ground arith

  -- A handler with a row key fails as unavailable on a worker that is shut down, fails where the
  -- key's tablet is not on this worker, and else goes on at the place of the tablet, whose number
  -- is one more. The exceptions of getTablet and getLogger are never thrown.
  pub with_tablet_lem :
      (w : Worker) (key : Bytes) (body : ℕ → ℕ → ℕ → Outcome)
      → with_tablet p w key body ≡ (
          if w.worker_up
          then elim (get_tablet w.worker_id (bucket p key)) [
            | none ↦ failed w (error not_found (bytes "Key does not belong in this worker"))
            | some i ↦ body (suc i) i i
          ]
          else failed w (error unavailable (bytes "Worker is shut down")))
  unfolding with_tablet
  with_tablet_lem w key body = ground (arith, get_tablet-number w.worker_id (bucket p key))

  pub with_tablet-cases {ℓ} :
      (Q : Outcome → Type ℓ) (w : Worker) (key : Bytes) (body : ℕ → ℕ → ℕ → Outcome)
      → ((status : Status) → Q (failed w status))
      → ((i : ℕ) → Q (body (suc i) i i))
      → Q (with_tablet p w key body)
  with_tablet-cases Q w key body early found =
      subst Q (sym (with_tablet_lem w key body))
        (by_test w.worker_up (get_tablet w.worker_id (bucket p key)))
    where
      by_test :
          (up : Bool) (place : Option ℕ)
          → Q (
              if up
              then elim place [
                | none ↦ failed w (error not_found (bytes "Key does not belong in this worker"))
                | some i ↦ body (suc i) i i
              ]
              else failed w (error unavailable (bytes "Worker is shut down")))
      by_test true none = early _
      by_test true (some i) = found i
      by_test false place = early _

module _ (p : Platform) (iterates : Iterates p) where
  after-IsDurable :
      (w : Worker) (i : ℕ) (op : Op) (t : Tablet)
      → apply op (w.tablets i) ≡ applied t
      → FitsLog (log_entry op)
      → FitsTablet (p.iterate t)
      → IsDurable (w.tablets i) (w.logs i) (w.checkpoints (suc i))
      → IsDurable
          ((after p w i op t).tablets i)
          ((after p w i op t).logs i)
          ((after p w i op t).checkpoints (suc i))
  after-IsDurable w i op t e f cap d =
      let (tablet, log, checkpoint) = record_update_here p w i op t in
      IsDurable-eq _ _ _ _ _ _ tablet log checkpoint
        (by_due (leb max_update_count (w.update_request_count (suc i) + 1)))
    where
      logged : IsDurable t (log_command (log_entry op) (w.logs i)) (w.checkpoints (suc i))
      logged = IsDurable-log op (w.tablets i) t (w.logs i) (w.checkpoints (suc i)) e f d

      by_due :
          (due : Bool)
          → IsDurable t
              (if due
                then clear_log (log_command (log_entry op) (w.logs i))
                else log_command (log_entry op) (w.logs i))
              (if due then some (serialize_tablet (p.iterate t)) else w.checkpoints (suc i))
      by_due true =
          IsDurable-checkpoint t (p.iterate t) _ (iterates.cells t) logged.formed
            (iterates.formed t logged.formed) cap
      by_due false = logged

  after-AllDurable :
      (w : Worker) (i : ℕ) (op : Op) (t : Tablet)
      → apply op (w.tablets i) ≡ applied t
      → FitsLog (log_entry op)
      → HasCapacity p (after p w i op t)
      → AllDurable w
      → AllDurable (after p w i op t)
  after-AllDurable w i op t e f cap d = record {
    at = λ j. elim (Bool-cases (i == j)) [
      | inl same ↦
          subst
            (λ k.
              IsDurable ((after p w i op t).tablets k) ((after p w i op t).logs k)
                ((after p w i op t).checkpoints (suc k)))
            ((==_iff i j).0 same)
            (after-IsDurable w i op t e f
              (subst (λ u. FitsTablet (p.iterate u)) (record_update_here p w i op t).0 (cap.at i))
              (d.at i))
      | inr differ ↦
          let (tablet, log, checkpoint) = record_update_elsewhere p w i j op t differ in
          IsDurable-eq _ _ _ _ _ _ tablet log checkpoint (d.at j)
    ];
  }

  written-AllDurable :
      (w : Worker) (i : ℕ) (op : Op) (calls : List Call) (result : Applied)
      → apply op (w.tablets i) ≡ result
      → FitsLog (log_entry op)
      → AllDurable w
      → HasCapacity p (written p w (suc i) i i op calls result).worker
      → AllDurable (written p w (suc i) i i op calls result).worker
  unfolding written
  written-AllDurable w i op calls (refused code message) e f d cap = d
  written-AllDurable w i op calls (applied t) e f d cap = after-AllDurable w i op t e f cap d

  pub writes-AllDurable :
      (w : Worker) (op : Op)
      → FitsLog (log_entry op)
      → AllDurable w
      → (HasCapacity p (write p w op).worker → AllDurable (write p w op).worker)
        × (HasCapacity p (replicate_write p w op).worker
            → AllDurable (replicate_write p w op).worker)
  unfolding write replicate_write
  writes-AllDurable w op f d = (
    with_tablet-cases p (λ o. HasCapacity p o.worker → AllDurable o.worker) w (row op) _
        (λ status cap. d) (λ i. written-AllDurable w i op _ _ refl f d),
    with_tablet-cases p (λ o. HasCapacity p o.worker → AllDurable o.worker) w (row op) _
        (λ status cap. d) (λ i. written-AllDurable w i op _ _ refl f d),
  )

  -- A write, its own or another worker's, accepted or not, with a checkpoint or without, leaves
  -- memory and disk of every tablet in agreement, as long as the sizes fit in 32 bits and iterating
  -- a tablet changes its order at most.
  pub write-AllDurable :
      (w : Worker) (op : Op)
      → FitsLog (log_entry op)
      → AllDurable w
      → HasCapacity p (write p w op).worker
      → HasCapacity p (replicate_write p w op).worker
      → AllDurable (write p w op).worker × AllDurable (replicate_write p w op).worker
  write-AllDurable w op f d own others =
      let (kept, replicated) = writes-AllDurable w op f d in (kept own, replicated others)

-- A write leaves the worker's number, its clients and its switch alone.
pub write-kept :
    (p : Platform) (w : Worker) (op : Op)
    → ((write p w op).worker.worker_id ≡ w.worker_id)
      × ((replicate_write p w op).worker.worker_id ≡ w.worker_id)
unfolding write replicate_write
write-kept p w op = (
  with_tablet-cases p (λ o. o.worker.worker_id ≡ w.worker_id) w (row op) _ (λ status. refl)
      (λ i. kept i (replicate p w op) (apply op (w.tablets i))),
  with_tablet-cases p (λ o. o.worker.worker_id ≡ w.worker_id) w (row op) _ (λ status. refl)
      (λ i. kept i [] (apply op (w.tablets i))),
)
  where
    kept :
        (i : ℕ) (calls : List Call) (result : Applied)
        → (written p w (suc i) i i op calls result).worker.worker_id ≡ w.worker_id
    kept i calls (refused code message) = refl
    kept i calls (applied t) = ground arith
