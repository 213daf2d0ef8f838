-- ===== src/Worker/Durable.antt =====
-- The invariant of a worker's disk: at every moment the checkpoint and the log of a tablet
-- rebuild what the tablet shows.
use penn_cloud.Prelude.{
  Bytes, ◌≡◌, refl, ap, sym, ◌∙◌, Option, some, true, List, [], ◌∷◌, ◌++◌, arith, All, All-append,
}
use penn_cloud.Tablet.{Tablet}
use penn_cloud.Tablet.Form.{IsFormed}
use penn_cloud.Serializer.{serialize_tablet}
use penn_cloud.Serializer.RoundTrip.{FitsTablet, deserialize_tablet-serialize_tablet}
use penn_cloud.Wire.{write_u32}
use penn_cloud.Logger.{CommandLog, log_command, clear_log}
use penn_cloud.Logger.Torn.{FitsLog, write_commands, write_commands-append, get_logs-write_commands}
use penn_cloud.Op.{Op, applied, apply, log_entry, replay_logs}
use penn_cloud.Op.Replay.{
  SameCells, SameCells-apply, replay-log_entry, replay_logs-append, apply-IsFormed, outcome,
}
use penn_cloud.Worker.Files.{
  retrieve_checkpoint, load_checkpoint, replay_over, rebuild_tablet, or_exit,
}

-- `base` is what the checkpoint holds and `cls` what was logged since.
pub record IsDurable (t : Tablet) (log : Bytes) (checkpoint : Option Bytes) : Type 0 where
  pub base : Tablet
  pub cls : List CommandLog
  pub rebuilt : Tablet
  pub loads : load_checkpoint (retrieve_checkpoint checkpoint).0 ≡ some base
  pub logged : log ≡ write_commands cls
  pub fits : All FitsLog cls
  pub replays : replay_logs cls base ≡ (rebuilt, true)
  pub same : SameCells rebuilt t
  pub formed : IsFormed t

pub IsDurable-eq :
    (t u : Tablet) (log log' : Bytes) (checkpoint checkpoint' : Option Bytes)
    → t ≡ u
    → log ≡ log'
    → checkpoint ≡ checkpoint'
    → IsDurable u log' checkpoint'
    → IsDurable t log checkpoint
IsDurable-eq t u log log' checkpoint checkpoint' e f g d = rw (e, f, g) d

replay_over-replay_logs :
    (cls : List CommandLog) (t u : Tablet)
    → replay_logs cls t ≡ (u, true)
    → replay_over cls t ≡ some u
unfolding replay_over replay_logs
replay_over-replay_logs [] t u e = ground arith
replay_over-replay_logs (cl ∷ cls) t u e = ap or_exit e

pub rebuild-IsDurable :
    (t : Tablet) (log : Bytes) (checkpoint : Option Bytes)
    → IsDurable t log checkpoint
    → (u : Tablet) × (rebuild_tablet checkpoint log ≡ some u) × SameCells u t
unfolding rebuild_tablet
rebuild-IsDurable t log checkpoint d = (
  d.rebuilt,
  rw (d.loads, rebuild_tablet)
      (rw (d.logged, get_logs-write_commands d.cls d.fits)
        (replay_over-replay_logs d.cls d.base d.rebuilt d.replays)),
  d.same,
)

pub IsDurable-log :
    (op : Op) (t u : Tablet) (log : Bytes) (checkpoint : Option Bytes)
    → apply op t ≡ applied u
    → FitsLog (log_entry op)
    → IsDurable t log checkpoint
    → IsDurable u (log_command (log_entry op) log) checkpoint
IsDurable-log op t u log checkpoint e f d =
    let (v, accepted, same) = SameCells-apply op t d.rebuilt u (λ r c. sym (d.same r c)) e in
    record {
      base = d.base;
      cls = d.cls ++ log_entry op ∷ [];
      rebuilt = v;
      loads = d.loads;
      logged =
          ap (log_command (log_entry op)) d.logged ∙ write_commands-append d.cls (log_entry op);
      fits = All-append FitsLog d.cls (log_entry op ∷ []) d.fits (f, tt);
      replays =
          replay_logs-append d.cls (log_entry op) d.base d.rebuilt v d.replays
            (replay-log_entry op d.rebuilt ∙ ap outcome accepted);
      same = λ r c. sym (same r c);
      formed = apply-IsFormed op t u e d.formed;
    }

pub IsDurable-checkpoint :
    (t u : Tablet) (log : Bytes)
    → SameCells u t
    → IsFormed t
    → IsFormed u
    → FitsTablet u
    → IsDurable t (clear_log log) (some (serialize_tablet u))
unfolding clear_log retrieve_checkpoint load_checkpoint serialize_tablet write_u32 write_commands
    replay_logs
IsDurable-checkpoint t u log s f g fits = record {
  base = u;
  cls = [];
  rebuilt = u;
  loads = ap or_exit (deserialize_tablet-serialize_tablet u g fits);
  logged = refl;
  fits = tt;
  replays = refl;
  same = s;
  formed = f;
}
