-- ===== src/Cluster/Replication/Refines.antt =====
-- A write on the primary of its key changes the map and all three copies alike.
use penn_cloud.Prelude.{
  ℕ, Bytes, bytes_eq, bytes_eq_iff, ◌≡◌, ◌≢◌, refl, ap, sym, ◌∙◌, none, false, ◌&&◌, List, [], ◌∷◌,
  arith, ◌==◌, ==_iff, Bool-cases, inl, inr,
}
use mathlib.Core.Path.{subst}
use penn_cloud.Tablet.{cell}
use penn_cloud.Map.{lookup}
use penn_cloud.Placement.{next1, next2}
use penn_cloud.Placement.Hosts.{hash_to_bucket-IsNode}
use penn_cloud.Op.{Op, Applied, refused, applied, apply, row}
use penn_cloud.KeyValue.{KeyValue, column, cell-apply, write-eq, write-row}
use penn_cloud.KeyValue
use penn_cloud.Rpc.{Code}
use penn_cloud.Worker.{Platform, bucket, init}
use penn_cloud.Cluster.{Cluster, start, write_at}
use penn_cloud.Cluster.Change.{Change}
use penn_cloud.Cluster.Replication.{
  IsReady, Shows, Implements, Change-IsReady, t-IsNode, d1, d3, change1, change2, change3,
  write_at-result,
}

==_differ : (a b : ℕ) → (a == b) ≡ false → a ≢ b
==_differ a b h = ground arith

other_place :
    (op : Op) (x i : ℕ) (d e : Cluster)
    → Change op x i d e
    → (y j : ℕ) → (i == j) ≡ false
    → (e y).tablets j ≡ (d y).tablets j
other_place op x i d e change y j h = change.others y j (ground arith)

-- The copy that is written shows what the map does, if it agreed with the map before.
Change-copy :
    (op : Op) (x i : ℕ) (d e : Cluster) (f : KeyValue) (r c : Bytes)
    → Change op x i d e
    → cell (row op) (column op) ((d x).tablets i) ≡ f (row op) (column op)
    → cell r c ((d x).tablets i) ≡ f r c
    → cell r c ((e x).tablets i) ≡ KeyValue.write op f r c
Change-copy op x i d e f r c change own asked =
    ap (cell r c) change.here ∙ cell-apply op ((d x).tablets i) r c ∙ write-eq op _ f r c own asked

module _ (p : Platform) (op : Op) (d : Cluster) (ready : IsReady d) (f : KeyValue)
    (agree : Implements p d f) where
  abbrev t : ℕ
  t = bucket p (row op)

  own : Shows d t (row op) (column op) (f (row op) (column op))
  own = agree.copies (row op) (column op)

  other_row : (r : Bytes) → (t == bucket p r) ≡ false → bytes_eq (row op) r ≡ false
  other_row r differ = elim (Bool-cases (bytes_eq (row op) r)) [
    | inl e ↦
        let same : t ≡ bucket p r = ap (bucket p) ((bytes_eq_iff (row op) r).0 e) in
        absurd (omega (arith, ==_differ t (bucket p r) differ))
    | inr e ↦ e
  ]

  -- The copies in another tablet stay.
  other_tablet :
      (e : Cluster) (r c : Bytes)
      → ((y j : ℕ)
          → ((t == y) && (0 == j)) ≡ false
          → ((next1 t == y) && (1 == j)) ≡ false
          → ((next2 t == y) && (2 == j)) ≡ false
          → (e y).tablets j ≡ (d y).tablets j)
      → (t == bucket p r) ≡ false
      → Shows e (bucket p r) r c (KeyValue.write op f r c)
  other_tablet e r c kept differ =
      let same : KeyValue.write op f r c ≡ f r c = write-row op f r c (other_row r differ) in
      let u_IsNode = hash_to_bucket-IsNode p.hash r in
      let node = t-IsNode p op d ready in
      let (a0, a1, a2) = agree.copies r c in
      (
        ap (cell r c) (kept _ 0 (ground arith) (ground arith) (ground arith)) ∙ a0 ∙ sym same,
        ap (cell r c) (kept _ 1 (ground arith) (ground arith) (ground arith)) ∙ a1 ∙ sym same,
        ap (cell r c) (kept _ 2 (ground arith) (ground arith) (ground arith)) ∙ a2 ∙ sym same,
      )

  refused_same :
      (r c : Bytes) (code : Code) (message : Bytes)
      → bucket p r ≡ t
      → apply op ((d t).tablets 0) ≡ refused code message
      → Shows d t r c (KeyValue.write op f r c)
  refused_same r c code message place e =
      let asked = subst (λ k. Shows d k r c (f r c)) place (agree.copies r c) in
      let kept : f r c ≡ KeyValue.write op f r c =
        sym asked.0
        ∙ ap (λ a. cell r c (KeyValue.result ((d t).tablets 0) a)) (sym e)
        ∙ cell-apply op ((d t).tablets 0) r c
        ∙ write-eq op _ f r c own.0 asked.0 in
      subst (Shows d t r c) kept asked

  -- The copies in the key's tablet after all three writes.
  applied_all :
      (r c : Bytes) → bucket p r ≡ t → Shows (d3 p op d ready) t r c (KeyValue.write op f r c)
  applied_all r c place =
      let c1 = change1 p op d ready in
      let c2 = change2 p op d ready in
      let c3 = change3 p op d ready in
      let (a0, a1, a2) = subst (λ k. Shows d k r c (f r c)) place (agree.copies r c) in
      let kept1 = other_place op t 0 d _ c1 (next1 t) 1 refl in
      let kept2 =
        other_place op (next1 t) 1 _ _ c2 (next2 t) 2 refl
        ∙ other_place op t 0 d _ c1 (next2 t) 2 refl in
      (
        ap (cell r c) (
              other_place op (next2 t) 2 _ _ c3 t 0 refl
              ∙ other_place op (next1 t) 1 _ _ c2 t 0 refl)
            ∙ Change-copy op t 0 d _ f r c c1 own.0 a0,
        ap (cell r c) (other_place op (next2 t) 2 _ _ c3 (next1 t) 1 refl)
            ∙ Change-copy op (next1 t) 1 _ _ f r c c2 (ap (cell (row op) (column op)) kept1 ∙ own.1)
                (ap (cell r c) kept1 ∙ a1),
        Change-copy op (next2 t) 2 _ _ f r c c3 (ap (cell (row op) (column op)) kept2 ∙ own.2)
            (ap (cell r c) kept2 ∙ a2),
      )

  refused_all :
      (r c : Bytes) (code : Code) (message : Bytes)
      → bucket p r ≡ t
      → apply op ((d t).tablets 0) ≡ refused code message
      → Shows (d1 p op d ready) t r c (KeyValue.write op f r c)
  refused_all r c code message place e =
      let c1 = change1 p op d ready in
      let (a0, a1, a2) = refused_same r c code message place e in
      (
        ap (cell r c) (c1.here ∙ ap (KeyValue.result ((d t).tablets 0)) e) ∙ a0,
        ap (cell r c) (other_place op t 0 d _ c1 (next1 t) 1 refl) ∙ a1,
        ap (cell r c) (other_place op t 0 d _ c1 (next2 t) 2 refl) ∙ a2,
      )

  after_answer :
      (answer : Applied)
      → apply op ((d t).tablets 0) ≡ answer
      → (r c : Bytes) → Shows (write_at p d t op) (bucket p r) r c (KeyValue.write op f r c)
  after_answer (refused code message) e r c =
      subst (λ e'. Shows e' (bucket p r) r c (KeyValue.write op f r c))
        (sym (write_at-result p op d ready (refused code message) e))
        (elim (Bool-cases (t == bucket p r)) [
          | inl h ↦
              let place : t ≡ bucket p r = (==_iff t (bucket p r)).0 h in
              subst (λ k. Shows (d1 p op d ready) k r c (KeyValue.write op f r c)) place
                (refused_all r c code message (sym place) e)
          | inr h ↦
              other_tablet (d1 p op d ready) r c
                (λ y j h0 h1 h2. (change1 p op d ready).others y j h0) h
        ])
  after_answer (applied u) e r c =
      subst (λ e'. Shows e' (bucket p r) r c (KeyValue.write op f r c))
        (sym (write_at-result p op d ready (applied u) e))
        (elim (Bool-cases (t == bucket p r)) [
          | inl h ↦
              let place : t ≡ bucket p r = (==_iff t (bucket p r)).0 h in
              subst (λ k. Shows (d3 p op d ready) k r c (KeyValue.write op f r c)) place
                (applied_all r c (sym place))
          | inr h ↦
              other_tablet (d3 p op d ready) r c
                (λ y j h0 h1 h2.
                  (change3 p op d ready).others y j h2
                  ∙ (change2 p op d ready).others y j h1
                  ∙ (change1 p op d ready).others y j h0)
                h
        ])

  -- In a cluster of ready workers whose copies show a map, a client's write on the primary of its
  -- key's tablet, which passes it on, leaves three copies of every tablet that show what the map
  -- shows after the same write; a write that is refused changes neither.
  pub write_at-Implements : Implements p (write_at p d t op) (KeyValue.write op f)
  write_at-Implements = record { copies = after_answer _ refl }

  pub write_at-IsReady : IsReady (write_at p d t op)
  write_at-IsReady = ready_after _ refl
    where
      ready_after :
          (answer : Applied) → apply op ((d t).tablets 0) ≡ answer → IsReady (write_at p d t op)
      ready_after (refused code message) e =
          subst IsReady (sym (write_at-result p op d ready (refused code message) e))
            (Change-IsReady op t 0 d _ (change1 p op d ready) ready)
      ready_after (applied u) e = subst IsReady (sym (write_at-result p op d ready (applied u) e)) (
          Change-IsReady op (next2 t) 2 _ _ (change3 p op d ready) (
            Change-IsReady op (next1 t) 1 _ _ (change2 p op d ready)
              (Change-IsReady op t 0 d _ (change1 p op d ready) ready)))

module _ (p : Platform) where
  -- Clients' writes, one after another, each on the primary of its key's tablet.
  unfoldable pub write_all : Cluster → List Op → Cluster
  write_all d [] = d
  write_all d (op ∷ ops) = write_all (write_at p d (bucket p (row op)) op) ops

  unfoldable pub write_map : KeyValue → List Op → KeyValue
  write_map f [] = f
  write_map f (op ∷ ops) = write_map (KeyValue.write op f) ops

  write_all-from :
      (ops : List Op) (d : Cluster) (f : KeyValue)
      → IsReady d
      → Implements p d f
      → Implements p (write_all d ops) (write_map f ops)
  unfolding write_all write_map
  write_all-from [] d f ready agree = agree
  write_all-from (op ∷ ops) d f ready agree =
      write_all-from ops _ _ (write_at-IsReady p op d ready f agree)
        (write_at-Implements p op d ready f agree)

  -- Six fresh workers that take any sequence of writes, each on the primary of its key's tablet,
  -- implement one map: for every row and column all three copies of the row's tablet show the value
  -- that the same writes, in the same order, leave in the map.
  pub write_all-Implements :
      (ops : List Op) → Implements p (write_all start ops) (write_map (λ r c. none) ops)
  unfolding init cell lookup
  write_all-Implements ops =
      write_all-from ops start _
        (record { worker_id = λ id h. refl; worker_up = λ id h. refl; clients = λ id h. refl })
        (record { copies = λ r c. (refl, refl, refl) })
