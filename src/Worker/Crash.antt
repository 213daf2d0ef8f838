-- ===== src/Worker/Crash.antt =====
-- A worker that crashes and finds all other workers down comes back with what it had.
use penn_cloud.Prelude.{
  ℕ, suc, Bytes, bytes, ◌≡◌, refl, ◌∙◌, some, true, List, [], ◌∷◌, arith, update, bytes_eq,
  getlines,
}
use penn_cloud.Tablet.{Tablet}
use penn_cloud.Placement.{get_tablet, prev1, connect}
use penn_cloud.Placement.Hosts.{IsNode, get_tablet-number}
use penn_cloud.Logger.Torn.{FitsLog, write_commands}
use penn_cloud.Op.{Op, log_entry, replay_logs}
use penn_cloud.Op.Replay.{SameCells}
use penn_cloud.Worker.{Platform, Worker, init, write, replicate_write}
use penn_cloud.Worker.Files.{rebuild_tablet, retrieve_checkpoint, load_checkpoint}
use penn_cloud.Worker.Durable.{rebuild-IsDurable}
use penn_cloud.Worker.Writes.{Iterates, AllDurable, HasCapacity, writes-AllDurable, write-kept}
use penn_cloud.Worker.Restart.{recover_tablet, recover_hosts, recover_all_tablets}

-- What a worker is asked to write: by a client, or by another worker.
pub data Request : Type 0 where
  from_client from_worker : Op → Request

module _ (p : Platform) where
  unfoldable pub serve : Worker → Request → Worker
  serve w (from_client op) = (write p w op).worker
  serve w (from_worker op) = (replicate_write p w op).worker

  unfoldable pub serve_all : Worker → List Request → Worker
  serve_all w [] = w
  serve_all w (r ∷ rs) = serve_all (serve w r) rs

  abbrev pub op_of : Request → Op
  op_of (from_client op) = op
  op_of (from_worker op) = op

  -- No string, row or tablet on the way has a size of 2^32 or more.
  abbrev pub RunFits : Worker → List Request → Type 0
  RunFits w [] = Unit
  RunFits w (r ∷ rs) =
      FitsLog (log_entry (op_of r)) × HasCapacity p (serve w r) × RunFits (serve w r) rs

  serve-AllDurable :
      (w : Worker) (r : Request)
      → Iterates p
      → FitsLog (log_entry (op_of r))
      → HasCapacity p (serve w r)
      → AllDurable w
      → AllDurable (serve w r)
  unfolding serve
  serve-AllDurable w (from_client op) it f cap d = (writes-AllDurable p it w op f d).0 cap
  serve-AllDurable w (from_worker op) it f cap d = (writes-AllDurable p it w op f d).1 cap

  pub serve_all-AllDurable :
      (w : Worker) (rs : List Request)
      → Iterates p
      → RunFits w rs
      → AllDurable w
      → AllDurable (serve_all w rs)
  unfolding serve_all
  serve_all-AllDurable w [] it f d = d
  serve_all-AllDurable w (r ∷ rs) it (f, cap, more) d =
      serve_all-AllDurable (serve w r) rs it more (serve-AllDurable w r it f cap d)

pub init-AllDurable : (id : ℕ) → AllDurable (init id)
unfolding init retrieve_checkpoint load_checkpoint write_commands replay_logs
init-AllDurable id = record {
  at = λ i. record {
    base = [];
    cls = [];
    rebuilt = [];
    loads = refl;
    logged = refl;
    fits = tt;
    replays = refl;
    same = λ r c. refl;
    formed = record { distinct = tt; rows = tt };
  };
}

-- A new process on the files of an old one, as `main` sets it up: memory is empty.
unfoldable pub reboot : Worker → Worker
reboot w = record w {
  tablets = λ i. [];
  update_request_count = λ n. 0;
  worker_up = true;
  clients = connect w.worker_id;
}

-- What the coordinator answers where no worker holds any of the three tablets.
abbrev pub all_dead : Bytes
all_dead = bytes "ALLDEAD;ALLDEAD;ALLDEAD"

module _ (copy : ℕ → ℕ → Bytes) where
  -- Recovery of one tablet from the files.
  recover_tablet-local :
      (w : Worker) (t i : ℕ) (u : Tablet)
      → get_tablet w.worker_id t ≡ some i
      → rebuild_tablet (w.checkpoints (suc i)) (w.logs i) ≡ some u
      → recover_tablet copy w t (bytes "ALLDEAD")
        ≡ some (record w { tablets = update w.tablets i u })
  unfolding recover_tablet bytes_eq
  recover_tablet-local w t i u place built = ground (arith, get_tablet-number w.worker_id t)

  -- The three rounds of the loop go through the three places of the vectors.
  places :
      (id : ℕ)
      → IsNode id
      → (get_tablet id id ≡ some 0)
        × (get_tablet id (prev1 id) ≡ some 1)
        × (get_tablet id (prev1 (prev1 id)) ≡ some 2)
  unfolding get_tablet
  places id h = ground arith

  all_dead_hosts :
      (w : Worker)
      → recover_all_tablets copy w all_dead
        ≡ recover_hosts copy w w.worker_id
            (bytes "ALLDEAD" ∷ bytes "ALLDEAD" ∷ bytes "ALLDEAD" ∷ [])
  unfolding recover_all_tablets getlines bytes_eq
  all_dead_hosts w = refl

  recover_hosts-three :
      (w w1 w2 w3 : Worker) (t : ℕ) (a b c : Bytes)
      → recover_tablet copy w t a ≡ some w1
      → recover_tablet copy w1 (prev1 t) b ≡ some w2
      → recover_tablet copy w2 (prev1 (prev1 t)) c ≡ some w3
      → recover_hosts copy w t (a ∷ b ∷ c ∷ []) ≡ some w3
  unfolding recover_hosts
  recover_hosts-three w w1 w2 w3 t a b c e f g =
      rw (e, recover_hosts) (rw (f, recover_hosts) (rw (g, recover_hosts)))

  -- If memory and disk agreed before a crash, and no other worker holds the tablets, the new
  -- process recovers every tablet: each of its cells is as before the crash.
  pub recover-reboot :
      (w : Worker)
      → IsNode w.worker_id
      → AllDurable w
      → (w' : Worker) × (recover_all_tablets copy (reboot w) all_dead ≡ some w')
        × SameCells (w'.tablets 0) (w.tablets 0)
        × SameCells (w'.tablets 1) (w.tablets 1)
        × SameCells (w'.tablets 2) (w.tablets 2)
  unfolding reboot
  recover-reboot w h d =
      let (u0, b0, s0) = rebuild-IsDurable (w.tablets 0) (w.logs 0) (w.checkpoints 1) (d.at 0) in
      let (u1, b1, s1) = rebuild-IsDurable (w.tablets 1) (w.logs 1) (w.checkpoints 2) (d.at 1) in
      let (u2, b2, s2) = rebuild-IsDurable (w.tablets 2) (w.logs 2) (w.checkpoints 3) (d.at 2) in
      let (p0, p1, p2) = places w.worker_id h in
      let w1 : Worker = record (reboot w) { tablets = update (reboot w).tablets 0 u0 } in
      let w2 : Worker = record w1 { tablets = update w1.tablets 1 u1 } in
      let w3 : Worker = record w2 { tablets = update w2.tablets 2 u2 } in
      (
        w3,
        all_dead_hosts (reboot w)
            ∙ recover_hosts-three (reboot w) w1 w2 w3 w.worker_id _ _ _
                (recover_tablet-local (reboot w) w.worker_id 0 u0 p0 b0)
                (recover_tablet-local w1 (prev1 w.worker_id) 1 u1 p1 b1)
                (recover_tablet-local w2 (prev1 (prev1 w.worker_id)) 2 u2 p2 b2),
        s0,
        s1,
        s2,
      )

serve_all-worker_id :
    (p : Platform) (w : Worker) (rs : List Request) → (serve_all p w rs).worker_id ≡ w.worker_id
unfolding serve_all serve
serve_all-worker_id p w [] = refl
serve_all-worker_id p w (from_client op ∷ rs) =
    serve_all-worker_id p (write p w op).worker rs ∙ (write-kept p w op).0
serve_all-worker_id p w (from_worker op ∷ rs) =
    serve_all-worker_id p (replicate_write p w op).worker rs ∙ (write-kept p w op).1

-- A worker that started on empty files, took any writes from clients and from other workers with
-- sizes below 2^32, crashed after one of them and came up while no other worker held its tablets,
-- shows in every cell of its three tablets what it showed before the crash.
pub recovery :
    (p : Platform) (copy : ℕ → ℕ → Bytes) (id : ℕ) (rs : List Request)
    → Iterates p
    → IsNode id
    → RunFits p (init id) rs
    → (w' : Worker) × (recover_all_tablets copy (reboot (serve_all p (init id) rs)) all_dead
        ≡ some w')
      × SameCells (w'.tablets 0) ((serve_all p (init id) rs).tablets 0)
      × SameCells (w'.tablets 1) ((serve_all p (init id) rs).tablets 1)
      × SameCells (w'.tablets 2) ((serve_all p (init id) rs).tablets 2)
unfolding init
recovery p copy id rs it h fits =
    recover-reboot copy (serve_all p (init id) rs) (rw (serve_all-worker_id p (init id) rs) h)
      (serve_all-AllDurable p (init id) rs it fits (init-AllDurable id))
