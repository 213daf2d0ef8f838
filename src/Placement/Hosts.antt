-- ===== src/Placement/Hosts.antt =====
-- Three workers hold each tablet, and the one in front sends its writes to those behind it.
use penn_cloud.Prelude.{
  ℕ, zero, suc, List, map, bytes_eq, ◌≤◌, Bytes, ◌≡◌, ◌≢◌, ◌↔◌, ◌⊎◌, refl, Option, none, some, [],
  ◌∷◌, arith,
}
use mathlib.Core.Option as Opt
use penn_cloud.Map.{lookup, insert}
use penn_cloud.Placement.{
  num_tablets, hash_to_bucket, next1, next2, get_tablet, get_logger,
  get_tablet_number_on_this_worker, connect, get_replicas_for_replication,
}

-- A number of a worker or of a tablet.
pub record IsNode (n : ℕ) : Type 0 where
  pub low : 1 ≤ n
  pub high : n ≤ 6

pub hash_to_bucket-IsNode :
    (hash : Bytes → ℕ) (key : Bytes) → IsNode (hash_to_bucket hash key num_tablets)
unfolding hash_to_bucket
hash_to_bucket-IsNode hash key = omega arith

abbrev pub Holds : ℕ → ℕ → Type 0
Holds w t = (w ≡ t) ⊎ (w ≡ next1 t) ⊎ (w ≡ next2 t)

-- The number of a tablet, its place in the vector of tablets and its place in the vector of
-- loggers are found for the same tablets, and agree.
pub get_tablet-number :
    (w t : ℕ)
    → (get_tablet_number_on_this_worker w t ≡ Opt.map suc (get_tablet w t))
      × (get_logger w t ≡ get_tablet w t)
unfolding get_tablet_number_on_this_worker get_tablet get_logger
get_tablet-number w t = ground arith

-- A worker finds a place for a tablet exactly if it is the tablet's own worker or one of the two
-- behind it on the ring.
pub get_tablet-Holds : (w t : ℕ) → IsNode w → IsNode t → (get_tablet w t ≢ none) ↔ Holds w t
unfolding get_tablet
get_tablet-Holds w t hw ht = (λ h. ground arith, λ h. ground arith)

-- What holds of each of the six numbers holds of every node.
pub node_cases {ℓ} : (P : ℕ → Type ℓ) (n : ℕ) → IsNode n → P 1 → P 2 → P 3 → P 4 → P 5 → P 6 → P n
node_cases P zero h a b c d e f = absurd (omega arith)
node_cases P (suc zero) h a b c d e f = a
node_cases P (suc (suc zero)) h a b c d e f = b
node_cases P (suc (suc (suc zero))) h a b c d e f = c
node_cases P (suc (suc (suc (suc zero)))) h a b c d e f = d
node_cases P (suc (suc (suc (suc (suc zero))))) h a b c d e f = e
node_cases P (suc (suc (suc (suc (suc (suc zero)))))) h a b c d e f = f
node_cases P (suc (suc (suc (suc (suc (suc (suc n))))))) h a b c d e f = absurd (omega arith)

-- The workers that the clients of a worker's replicas talk to.
abbrev pub targets : ℕ → ℕ → List (Option ℕ)
targets w t =
    map (λ (replica : Bytes × Option ℕ). replica.1) (get_replicas_for_replication w t (connect w))

-- The primary of a tablet sends its writes to the two workers behind it on the ring, the second
-- worker to the third, and the third to nobody; no replica's client is a null pointer.
pub get_replicas-targets :
    (t : ℕ)
    → IsNode t
    → (targets t t ≡ some (next1 t) ∷ some (next2 t) ∷ [])
      × (targets (next1 t) t ≡ some (next2 t) ∷ [])
      × (targets (next2 t) t ≡ [])
unfolding get_replicas_for_replication connect lookup insert bytes_eq
get_replicas-targets t h =
    node_cases
      (λ t.
        (targets t t ≡ some (next1 t) ∷ some (next2 t) ∷ [])
        × (targets (next1 t) t ≡ some (next2 t) ∷ [])
        × (targets (next2 t) t ≡ []))
      t h (refl, refl, refl) (refl, refl, refl) (refl, refl, refl) (refl, refl, refl)
      (refl, refl, refl) (refl, refl, refl)
