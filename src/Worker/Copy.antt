-- ===== src/Worker/Copy.antt =====
-- Recovery from another worker, which sends the tablet in chunks.
use penn_cloud.Prelude.{
  ℕ, zero, suc, ◌<◌, ◌≤◌, ◌^◌, Bytes, bytes, bytes_eq_iff, ◌≢◌, ◌≡◌, refl, ap, ◌∙◌, some, Bool,
  true, [], ◌∷◌, ◌++◌, arith, take, drop, length, length-append, length-drop, take-append-drop,
  update,
}
use penn_cloud.Map.{lookup}
use penn_cloud.Tablet.{Tablet}
use penn_cloud.Tablet.Form.{IsFormed}
use penn_cloud.Serializer.{serialize_tablet, deserialize_tablet}
use penn_cloud.Serializer.RoundTrip.{FitsTablet, deserialize_tablet-serialize_tablet}
use penn_cloud.Wire.{read_string-short}
use penn_cloud.Serializer.Short.{deserialize-short}
use penn_cloud.Rpc.{unavailable, error_text, error_code, client_result}
use penn_cloud.Placement.{get_tablet}
use penn_cloud.Placement.Hosts.{get_tablet-number}
use penn_cloud.Op.Replay.{SameCells}
use penn_cloud.Worker.{Platform, Worker}
use penn_cloud.Worker.Writes.{Iterates}
use penn_cloud.Worker.Restart.{
  recover_tablet, chunk_size, send_chunks, sent_status, copy_tablet, concat, copy_tablet_client,
}

-- With as much fuel as bytes, and a stream that accepts every chunk, the loop ends with success,
-- and the chunks put together are the text.
send_chunks-concat :
    (accepts : ℕ → Bool) (fuel k : ℕ) (b : Bytes)
    → ((j : ℕ) → accepts j ≡ true)
    → length b ≤ fuel
    → ((send_chunks accepts fuel k b).1 ≡ true) × (concat (send_chunks accepts fuel k b).0 ≡ b)
unfolding send_chunks concat
send_chunks-concat accepts fuel k [] all h = (refl, refl)
send_chunks-concat accepts zero k (x ∷ b) all h = elim h [ ]
send_chunks-concat accepts (suc fuel) k (x ∷ b) all h =
    let (done, whole) =
      send_chunks-concat accepts fuel (suc k) (drop chunk_size (x ∷ b)) all
        (omega (arith, length-drop chunk_size (x ∷ b))) in
    rw (all k, send_chunks)
      (done, ap (◌++◌ (take chunk_size (x ∷ b))) whole ∙ take-append-drop chunk_size (x ∷ b))

module _ (p : Platform) (iterates : Iterates p) where
  -- A worker that is up and holds the tablet sends all of it, if every chunk is accepted: the
  -- client puts the serialized tablet together again.
  pub copy_tablet_client-copy_tablet :
      (accepts : ℕ → Bool) (v : Worker) (t i : ℕ)
      → ((j : ℕ) → accepts j ≡ true)
      → v.worker_up ≡ true
      → get_tablet v.worker_id t ≡ some i
      → copy_tablet_client (copy_tablet p accepts v t) ≡ serialize_tablet (p.iterate (v.tablets i))
  unfolding copy_tablet copy_tablet_client sent_status client_result
  copy_tablet_client-copy_tablet accepts v t i all up place = ground (
    arith,
    get_tablet-number v.worker_id t,
    send_chunks-concat accepts (length (serialize_tablet (p.iterate (v.tablets i)))) 0
        (serialize_tablet (p.iterate (v.tablets i))) all,
  )

  -- A worker that recovers a tablet from another one, which is up, holds the tablet in serializable
  -- form, sends all of it and is reached under the host's name, ends with that worker's tablet:
  -- every cell is the same.
  pub recover_tablet-copy :
      (accepts : ℕ → Bool) (copy : ℕ → ℕ → Bytes) (w v : Worker) (host : Bytes) (id t i j : ℕ)
      → ((k : ℕ) → accepts k ≡ true)
      → copy id t ≡ copy_tablet_client (copy_tablet p accepts v t)
      → v.worker_up ≡ true
      → get_tablet v.worker_id t ≡ some i
      → get_tablet w.worker_id t ≡ some j
      → host ≢ bytes "ALLDEAD"
      → lookup host w.clients ≡ some id
      → IsFormed (v.tablets i)
      → FitsTablet (p.iterate (v.tablets i))
      → (u : Tablet) × (recover_tablet copy w t host
          ≡ some (record w { tablets = update w.tablets j u }))
        × SameCells u (v.tablets i)
  unfolding recover_tablet
  recover_tablet-copy accepts copy w v host id t i j all sent up there here known client f fits = (
    p.iterate (v.tablets i),
    ground (
      arith,
      get_tablet-number w.worker_id t,
      bytes_eq_iff host (bytes "ALLDEAD"),
      known,
      copy_tablet_client-copy_tablet accepts v t i all up there,
      deserialize_tablet-serialize_tablet (p.iterate (v.tablets i))
          (iterates.formed (v.tablets i) f) fits,
    ),
    iterates.cells (v.tablets i),
  )

error_text-unavailable :
    (message : Bytes)
    → error_text (error_code unavailable) message
      ≡ b'E' ∷ b'R' ∷ b'R' ∷ b' ' ∷ b'1' ∷ b'4' ∷ b':' ∷ b' ' ∷ (message ++ bytes "\n")
unfolding error_text error_code
error_text-unavailable message = refl

-- The error that the client returns is no tablet: its first bytes are read as a number of rows,
-- and the next as the length of a key that is not there.
deserialize-error_text :
    (message : Bytes)
    → length message < 2 ^ 20
    → (deserialize_tablet [] (error_text (error_code unavailable) message)).0 ≡ []
deserialize-error_text message short =
    ap (λ (b : Bytes). (deserialize_tablet [] b).0) (error_text-unavailable message)
    ∙ deserialize-short b'E' b'R' b'R' b' ' [] _ (
        read_string-short b'1' b'4' b':' b' ' _ (omega (arith, length-append message (bytes "\n"))))

-- If the other worker cannot be reached, what the client returns is read as a tablet: the worker
-- goes on with an empty one, whatever it held.
pub recover_tablet-unavailable :
    (copy : ℕ → ℕ → Bytes) (w : Worker) (host message : Bytes) (id t j : ℕ)
    → copy id t ≡ error_text (error_code unavailable) message
    → length message < 2 ^ 20
    → get_tablet w.worker_id t ≡ some j
    → host ≢ bytes "ALLDEAD"
    → lookup host w.clients ≡ some id
    → recover_tablet copy w t host ≡ some (record w { tablets = update w.tablets j [] })
unfolding recover_tablet
recover_tablet-unavailable copy w host message id t j sent short here known client = ground (
  arith,
  get_tablet-number w.worker_id t,
  bytes_eq_iff host (bytes "ALLDEAD"),
  known,
  deserialize-error_text message short,
)
