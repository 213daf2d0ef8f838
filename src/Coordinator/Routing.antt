-- ===== src/Coordinator/Routing.antt =====
-- Where the coordinator sends clients, and that the worker there has what they ask for.
use penn_cloud.Prelude.{
  ℕ, ◌-◌, ◌/◌, ◌≤◌, Bytes, bytes, ◌≡◌, ◌≢◌, ◌↔◌, inl, inr, refl, Option, none, some, Bool, true,
  false, arith, List, [], ◌∷◌, if◌then◌else◌, ==_iff, sym, ◌∙◌, ap, Option-cases,
}
use mathlib.Core.Path.{subst}
use penn_cloud.Rpc.{Status, success, error, unavailable}
use penn_cloud.Placement.{num_tablets, hash_to_bucket, next1, next2, get_tablet}
use penn_cloud.Placement.Hosts.{IsNode, Holds, get_tablet-Holds, hash_to_bucket-IsNode}
use penn_cloud.Coordinator.{
  Coordinator, subscript, touch, first_alive, candidates, host_at, lookup_reply, lookup, heartbeat,
  monitor,
}

-- The coordinator takes this worker for alive.
abbrev pub IsUp : Coordinator → ℕ → Type 0
IsUp m id = subscript (m.is_alive id) ≡ true

subscript-touch :
    (m : Coordinator) (i j : ℕ) → subscript ((touch m i).is_alive j) ≡ subscript (m.is_alive j)
unfolding touch subscript
subscript-touch m i j = ground (arith, ==_iff i j)

abbrev pick : Bool → Bool → Bool → ℕ → Option ℕ
pick a b c t =
    if a then some t else if b then some (next1 t) else if c then some (next2 t) else none

-- The look-ups that only add `false` do not change what is found.
pub first_alive_lem :
    (m : Coordinator) (t : ℕ)
    → (first_alive m (candidates t)).1
      ≡ pick
          (subscript (m.is_alive t))
          (subscript (m.is_alive (next1 t)))
          (subscript (m.is_alive (next2 t)))
          t
unfolding first_alive
first_alive_lem m t = ground (
  arith,
  subscript-touch m t (next1 t),
  subscript-touch m t (next2 t),
  subscript-touch (touch m t) (next1 t) (next2 t),
)

next-IsNode : (t : ℕ) → IsNode (next1 t) × IsNode (next2 t)
next-IsNode t = omega arith

-- The worker that is found holds the tablet and is up; if none is found, none of the three is up.
pub first_alive-Holds :
    (m : Coordinator) (t id : ℕ)
    → IsNode t
    → (first_alive m (candidates t)).1 ≡ some id
    → IsNode id × Holds id t × IsUp m id
first_alive-Holds m t id h e = picked _ _ _ refl refl refl (sym (first_alive_lem m t) ∙ e)
  where
    named :
        (j : ℕ)
        → IsNode j × Holds j t × IsUp m j
        → some j ≡ some id
        → IsNode id × Holds id t × IsUp m id
    named j g f = let same : j ≡ id = cc in subst (λ k. IsNode k × Holds k t × IsUp m k) same g

    picked :
        (a b c : Bool)
        → subscript (m.is_alive t) ≡ a
        → subscript (m.is_alive (next1 t)) ≡ b
        → subscript (m.is_alive (next2 t)) ≡ c
        → pick a b c t ≡ some id
        → IsNode id × Holds id t × IsUp m id
    picked true b c p q r f = named t (h, inl refl, p) f
    picked false true c p q r f = named (next1 t) ((next-IsNode t).0, inr (inl refl), q) f
    picked false false true p q r f = named (next2 t) ((next-IsNode t).1, inr (inr refl), r) f
    picked false false false p q r f = cc

first_alive-host_map :
    (m : Coordinator) (ids : List ℕ) → (first_alive m ids).0.host_map ≡ m.host_map
unfolding first_alive touch
first_alive-host_map m [] = refl
first_alive-host_map m (id ∷ ids) = ground (arith, first_alive-host_map (touch m id) ids)

abbrev all_down : Status
all_down = error unavailable (bytes "All workers are down")

lookup_reply-down : (r : Coordinator × Option ℕ) → ((lookup_reply r).1 ≡ all_down) ↔ (r.1 ≡ none)
unfolding lookup_reply host_at
lookup_reply-down (m, none) = (λ e. refl, λ e. refl)
lookup_reply-down (m, some id) = (λ e. ground arith, λ e. cc)

lookup_reply-success :
    (r : Coordinator × Option ℕ)
    → (lookup_reply r).1 ≡ success
    → (id : ℕ) × (r.1 ≡ some id) × (r.0.host_map id ≡ some (lookup_reply r).2)
unfolding lookup_reply host_at
lookup_reply-success (m, none) e = cc
lookup_reply-success (m, some id) e = (id, refl, ground arith)

lookup_reply-named :
    (r : Coordinator × Option ℕ) (id : ℕ) (host : Bytes)
    → r.1 ≡ some id
    → r.0.host_map id ≡ some host
    → ((lookup_reply r).1 ≡ success) × ((lookup_reply r).2 ≡ host)
unfolding lookup_reply host_at
lookup_reply-named (m, none) id host e named = cc
lookup_reply-named (m, some j) id host e named =
    let here : m.host_map j ≡ some host = cc in rw here (refl, refl)

-- Look-up fails as unavailable exactly if none of the three workers of the key's tablet is up.
pub lookup-unavailable :
    (hash : Bytes → ℕ) (m : Coordinator) (key : Bytes)
    → let t = hash_to_bucket hash key num_tablets in
      ((lookup hash m key).1 ≡ all_down) ↔ (
        (subscript (m.is_alive t) ≡ false)
        × (subscript (m.is_alive (next1 t)) ≡ false)
        × (subscript (m.is_alive (next2 t)) ≡ false))
unfolding lookup
lookup-unavailable hash m key =
    let t = hash_to_bucket hash key num_tablets in
    let down = lookup_reply-down (first_alive m (candidates t)) in
    (
      λ e. ground (arith, first_alive_lem m t, down.0 e),
      λ h. down.1 (ground (arith, first_alive_lem m t)),
    )

-- Where look-up succeeds, it names a worker that is taken for alive and that finds a place for the
-- key's tablet: the worker's handlers do not turn the key away.
pub lookup-get_tablet :
    (hash : Bytes → ℕ) (m : Coordinator) (key : Bytes)
    → (lookup hash m key).1 ≡ success
    → (id : ℕ) × (m.host_map id ≡ some (lookup hash m key).2)
      × IsUp m id
      × (get_tablet id (hash_to_bucket hash key num_tablets) ≢ none)
unfolding lookup
lookup-get_tablet hash m key e =
    let t = hash_to_bucket hash key num_tablets in
    let bucket_IsNode = hash_to_bucket-IsNode hash key in
    let (id, found, host) = lookup_reply-success (first_alive m (candidates t)) e in
    let (node, holds, up) = first_alive-Holds m t id bucket_IsNode found in
    (
      id,
      subst (λ (f : ℕ → Option Bytes). f id ≡ some (lookup hash m key).2)
          (first_alive-host_map m (candidates t)) host,
      up,
      (get_tablet-Holds id t node bucket_IsNode).1 holds,
    )

monitored-host_map :
    (second : ℕ) (m : Coordinator) (id sent now : ℕ)
    → (monitor second (heartbeat m id sent) now).host_map ≡ m.host_map
unfolding monitor heartbeat
monitored-host_map second m id sent now = refl

monitor-heartbeat :
    (second : ℕ) (m : Coordinator) (id sent now : ℕ)
    → (now - sent) / second ≤ 3
    → IsUp (monitor second (heartbeat m id sent) now) id
unfolding monitor heartbeat subscript
monitor-heartbeat second m id sent now recent = ground arith

-- A worker that holds the key's tablet and whose last heartbeat was less than four seconds before
-- the monitor's round keeps the key reachable, if the coordinator knows the hosts of the workers 1
-- to 6: look-up succeeds and returns the host of a worker that is taken for alive and that finds a
-- place for the key's tablet.
pub lookup-heartbeat :
    (second : ℕ) (hash : Bytes → ℕ) (m : Coordinator) (host : ℕ → Bytes) (key : Bytes)
    (id sent now : ℕ)
    → ((j : ℕ) → IsNode j → m.host_map j ≡ some (host j))
    → Holds id (hash_to_bucket hash key num_tablets)
    → (now - sent) / second ≤ 3
    → let m1 = monitor second (heartbeat m id sent) now in
      (j : ℕ) × ((lookup hash m1 key).1 ≡ success)
      × ((lookup hash m1 key).2 ≡ host j)
      × IsUp m1 j
      × (get_tablet j (hash_to_bucket hash key num_tablets) ≢ none)
unfolding lookup
lookup-heartbeat second hash m host key id sent now named holds recent =
    let m1 = monitor second (heartbeat m id sent) now in
    let t = hash_to_bucket hash key num_tablets in
    let t_IsNode = hash_to_bucket-IsNode hash key in
    elim (Option-cases (first_alive m1 (candidates t)).1) [
      | inl missing ↦
          let down =
            (lookup-unavailable hash m1 key).0
              ((lookup_reply-down (first_alive m1 (candidates t))).1 missing) in
          absurd (ground (arith, monitor-heartbeat second m id sent now recent, down, holds))
      | inr (j, found) ↦
          let (node, at, up) = first_alive-Holds m1 t j t_IsNode found in
          let (ok, reply) = lookup_reply-named (first_alive m1 (candidates t)) j (host j) found (
            ap (λ (f : ℕ → Option Bytes). f j)
              (first_alive-host_map m1 (candidates t) ∙ monitored-host_map second m id sent now)
            ∙ named j node) in
          (j, ok, reply, up, (get_tablet-Holds j t node t_IsNode).1 at)
    ]

-- Where the primary of the key's tablet is alive, look-up names it, and every
-- worker that is alive stays so.
pub lookup-primary :
    (hash : Bytes → ℕ) (m : Coordinator) (key host : Bytes)
    → m.is_alive (hash_to_bucket hash key num_tablets) ≡ some true
    → m.host_map (hash_to_bucket hash key num_tablets) ≡ some host
    → ((id : ℕ) → m.is_alive id ≡ some true → (lookup hash m key).0.is_alive id ≡ some true)
      × ((lookup hash m key).0.host_map ≡ m.host_map)
      × ((lookup hash m key).1 ≡ success)
      × ((lookup hash m key).2 ≡ host)
unfolding lookup lookup_reply first_alive touch subscript host_at
lookup-primary hash m key host up named =
    (λ id e. ground arith, ground arith, ground arith, ground arith)
