-- ===== src/Client/Replies.antt =====
-- What a client reads.
use penn_cloud.Prelude.{
  ℕ, Bytes, bytes, ◌≡◌, refl, ap, ◌∙◌, Option, none, some, true, arith, inl, inr, bytes_eq,
  to_string, sym, contains, cut_text, begins,
}
use mathlib.Core.Path.{subst}
use penn_cloud.Tablet
use penn_cloud.Tablet.{Tablet, cell, Found, no_row, no_column, value}
use penn_cloud.Tablet.Cells.{cell-get}
use penn_cloud.Rpc.{client_result, error_text, error_code, not_found}
use penn_cloud.Placement.{get_tablet, next1, next2}
use penn_cloud.Placement.Hosts.{IsNode, Holds, hash_to_bucket-IsNode, get_tablet-number}
use penn_cloud.KeyValue.{KeyValue}
use penn_cloud.Service.{is_err}
use penn_cloud.Worker
use penn_cloud.Worker.{Platform, Worker, bucket}
use penn_cloud.Cluster.{Cluster}
use penn_cloud.Cluster.Replication.{IsReady, Implements, places}
use penn_cloud.Client.{get}

-- A text that is the value, or an error text for a missing one.
abbrev pub Reads : Bytes → Option Bytes → Type 0
Reads text none = is_err text ≡ true
Reads text (some v) = text ≡ v

read : Found → Bytes
read no_row = error_text (error_code not_found) (bytes "Row key not found")
read no_column = error_text (error_code not_found) (bytes "Column key not found")
read (value v) = v

read-Reads : (found : Found) → Reads (read found) (elim found [ value v ↦ some v | _ ↦ none ])
unfolding read is_err error_text error_code to_string bytes_eq
read-Reads no_row = refl
read-Reads no_column = refl
read-Reads (value v) = refl

read-not_found :
    (found : Found)
    → elim found [ value v ↦ some v | _ ↦ none ] ≡ none
    → contains (bytes "not found") (read found) ≡ true
unfolding read contains cut_text begins error_text error_code to_string bytes_eq
read-not_found no_row e = refl
read-not_found no_column e = refl
read-not_found (value v) e = cc

module _ (p : Platform) where
  get-read :
      (d : Cluster) (id i : ℕ) (r c : Bytes)
      → (d id).worker_up ≡ true
      → get_tablet (d id).worker_id (bucket p r) ≡ some i
      → get p d id r c ≡ read (Tablet.get r c ((d id).tablets i))
  unfolding get Worker.get Worker.with_tablet read client_result
  get-read d id i r c up place = ground (arith, get_tablet-number (d id).worker_id (bucket p r))

  get-cell :
      (d : Cluster) (id i : ℕ) (r c : Bytes)
      → (d id).worker_up ≡ true
      → get_tablet (d id).worker_id (bucket p r) ≡ some i
      → Reads (get p d id r c) (cell r c ((d id).tablets i))
  get-cell d id i r c up place =
      rw (get-read d id i r c up place, cell-get r c ((d id).tablets i))
        (read-Reads (Tablet.get r c ((d id).tablets i)))

  -- The error text for a missing value says that it was not found.
  pub get-not_found :
      (d : Cluster) (id i : ℕ) (r c : Bytes)
      → (d id).worker_up ≡ true
      → get_tablet (d id).worker_id (bucket p r) ≡ some i
      → cell r c ((d id).tablets i) ≡ none
      → contains (bytes "not found") (get p d id r c) ≡ true
  get-not_found d id i r c up place missing =
      rw (get-read d id i r c up place)
        (read-not_found _ (sym (cell-get r c ((d id).tablets i)) ∙ missing))

  get-at :
      (d : Cluster) (id i : ℕ) (r c : Bytes) (v : Option Bytes)
      → IsReady d
      → IsNode id
      → get_tablet id (bucket p r) ≡ some i
      → cell r c ((d id).tablets i) ≡ v
      → Reads (get p d id r c) v
  get-at d id i r c v ready node place e = subst (Reads (get p d id r c)) e (
      get-cell d id i r c (ready.worker_up id node)
        (ap (λ n. get_tablet n (bucket p r)) (ready.worker_id id node) ∙ place))

  -- In a cluster of ready workers that implements a map, a client reads the map from each of the
  -- three workers that hold the key's tablet: the value as it is, and an error text for a missing
  -- one.
  pub get-Implements :
      (d : Cluster) (f : KeyValue) (id : ℕ) (r c : Bytes)
      → IsReady d
      → Implements p d f
      → IsNode id
      → Holds id (bucket p r)
      → Reads (get p d id r c) (f r c)
  get-Implements d f id r c ready agree node holds = of_place holds
    where
      t : ℕ
      t = bucket p r

      at_place :
          (x i : ℕ)
          → id ≡ x
          → get_tablet x t ≡ some i
          → cell r c ((d x).tablets i) ≡ f r c
          → Reads (get p d id r c) (f r c)
      at_place x i e place shows =
          get-at d id i r c (f r c) ready node (ap (λ n. get_tablet n t) e ∙ place)
            (ap (λ n. cell r c ((d n).tablets i)) e ∙ shows)

      of_place : Holds id t → Reads (get p d id r c) (f r c)
      of_place (inl e) =
          at_place t 0 e (places t (hash_to_bucket-IsNode p.hash r)).0 (agree.copies r c).0
      of_place (inr (inl e)) =
          at_place (next1 t) 1 e (places t (hash_to_bucket-IsNode p.hash r)).1 (agree.copies r c).1
      of_place (inr (inr e)) =
          at_place (next2 t) 2 e (places t (hash_to_bucket-IsNode p.hash r)).2 (agree.copies r c).2
