-- ===== src/Op/Replay.antt =====
-- Replaying what was logged does again what was done.
use mathlib.Core.Path.{subst}
use penn_cloud.Prelude.{
  Bytes, bytes_eq, ◌≡◌, refl, ap, sym, ◌∙◌, Option, none, some, true, List, [], ◌∷◌, ◌++◌, arith,
  Option-cases, inl, inr,
}
use penn_cloud.Tablet
use penn_cloud.Tablet.{
  Tablet, cell, CputResult, row_missing, column_missing, value_differs, stored, row_of,
}
use penn_cloud.Tablet.Cells.{cell-put, cell-delete, cput-cell, cput-stored}
use penn_cloud.Tablet.Form.{IsFormed, put-IsFormed, cput-IsFormed, delete-IsFormed}
use penn_cloud.Logger.{CommandLog}
use penn_cloud.Op.{
  Op, put, cput, delete, Applied, refused, applied, apply, apply_cput, log_entry, replay_command,
  replay_logs, replayed_cput,
}

-- What becomes of a tablet, where the replay goes on only if the write is accepted.
abbrev pub outcome : Applied → Option Tablet
outcome (refused code message) = none
outcome (applied t) = some t

-- The replay of an entry accepts what the handler accepted, and with the same tablet.
pub replay-log_entry :
    (op : Op) (t : Tablet) → replay_command (log_entry op) t ≡ outcome (apply op t)
unfolding replay_command log_entry apply bytes_eq
replay-log_entry (put r c v) t = refl
replay-log_entry (cput r c current new) t = replayed (Tablet.cput r c current new t)
  where
    replayed : (result : CputResult) → replayed_cput result ≡ outcome (apply_cput result)
    replayed row_missing = refl
    replayed column_missing = refl
    replayed value_differs = refl
    replayed (stored u) = refl
replay-log_entry (delete r c) t = refl

applied-injective : {t u : Tablet} → applied t ≡ applied u → t ≡ u
applied-injective e = cc

applied_cput :
    (result : CputResult) (u : Tablet) → apply_cput result ≡ applied u → result ≡ stored u
unfolding apply_cput
applied_cput row_missing u e = cc
applied_cput column_missing u e = cc
applied_cput value_differs u e = cc
applied_cput (stored w) u e = cc

-- A write that is accepted keeps the tablet well-formed: distinct keys and no empty row.
pub apply-IsFormed : (op : Op) (t u : Tablet) → apply op t ≡ applied u → IsFormed t → IsFormed u
unfolding apply
apply-IsFormed (put r c v) t u e f = ground (arith, put-IsFormed r c v t f)
apply-IsFormed (cput r c current new) t u e f =
    cput-IsFormed r c current new t u (applied_cput (Tablet.cput r c current new t) u e) f
apply-IsFormed (delete r c) t u e f = ground (arith, delete-IsFormed r c t f)

-- Two tablets that show the same value in every cell.
abbrev pub SameCells : Tablet → Tablet → Type 0
SameCells t u = (r c : Bytes) → cell r c t ≡ cell r c u

pub SameCells-put :
    (r c v : Bytes) (t u : Tablet)
    → SameCells t u
    → SameCells (Tablet.put r c v t) (Tablet.put r c v u)
SameCells-put r c v t u s r' c' = simp cell-put (ground (arith, s r' c'))

SameCells-delete :
    (r c : Bytes) (t u : Tablet)
    → SameCells t u
    → SameCells (Tablet.delete r c t) (Tablet.delete r c u)
SameCells-delete r c t u s r' c' = simp cell-delete (ground (arith, s r' c'))

-- A write that is accepted on a tablet is accepted on every tablet that shows the same cells, and
-- leaves the same cells.
pub SameCells-apply :
    (op : Op) (t u t' : Tablet)
    → SameCells t u
    → apply op t ≡ applied t'
    → (u' : Tablet) × (apply op u ≡ applied u') × SameCells t' u'
unfolding apply
SameCells-apply (put r c v) t u t' s e = (
  Tablet.put r c v u,
  refl,
  subst (λ x. SameCells x (Tablet.put r c v u)) (applied-injective e) (SameCells-put r c v t u s),
)
SameCells-apply (cput r c current new) t u t' s e =
    let (is_put, held) =
      cput-stored r c current new t t' (applied_cput (Tablet.cput r c current new t) t' e) in
    (
      Tablet.put r c new u,
      ap apply_cput (cput-cell r c current new u (sym (s r c) ∙ held)),
      subst (λ x. SameCells x (Tablet.put r c new u)) (sym is_put) (SameCells-put r c new t u s),
    )
SameCells-apply (delete r c) t u t' s e = (
  Tablet.delete r c u,
  refl,
  subst (λ x. SameCells x (Tablet.delete r c u)) (applied-injective e) (SameCells-delete r c t u s),
)

-- One more entry in the log is one more round of a replay that has got so far.
pub replay_logs-append :
    (cls : List CommandLog) (cl : CommandLog) (t u v : Tablet)
    → replay_logs cls t ≡ (u, true)
    → replay_command cl u ≡ some v
    → replay_logs (cls ++ cl ∷ []) t ≡ (v, true)
unfolding replay_logs
replay_logs-append [] cl t u v e f = ground arith
replay_logs-append (c ∷ cls) cl t u v e f = elim (Option-cases (replay_command c t)) [
  | inl p ↦ ground arith
  | inr (w, p) ↦ rw (p, replay_logs) (replay_logs-append cls cl w u v (ground arith) f)
]
