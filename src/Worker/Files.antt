-- ===== src/Worker/Files.antt =====
-- What a worker keeps on disk for one tablet, the checkpoint and the log, and how a tablet is
-- rebuilt from them: retrieveCheckpoint and recoverFromLocal of backend/worker.cc.
use penn_cloud.Prelude.{Bytes, Option, none, some, Bool, true, false, List, [], ◌∷◌}
use penn_cloud.Tablet.{Tablet}
use penn_cloud.Serializer.{deserialize_tablet}
use penn_cloud.Logger.{CommandLog, get_logs}
use penn_cloud.Op.{replay_logs}

-- What ends up in `binaryData`, and the result. A file that is not there is `none`.
unfoldable pub retrieve_checkpoint : Option Bytes → Bytes × Bool
retrieve_checkpoint none = ([], false)
retrieve_checkpoint (some []) = ([], false)
retrieve_checkpoint (some (x ∷ b)) = (x ∷ b, true)

-- The tablet where a step succeeded; `none` is `exit`.
abbrev pub or_exit : Tablet × Bool → Option Tablet
or_exit (t, true) = some t
or_exit (t, false) = none

-- The tablet was cleared before, and an empty checkpoint is passed over.
unfoldable pub load_checkpoint : Bytes → Option Tablet
load_checkpoint [] = some []
load_checkpoint (x ∷ b) = or_exit (deserialize_tablet [] (x ∷ b))

-- An empty log is passed over.
unfoldable pub replay_over : List CommandLog → Tablet → Option Tablet
replay_over [] t = some t
replay_over (cl ∷ cls) t = or_exit (replay_logs (cl ∷ cls) t)

unfoldable pub rebuild_tablet : Option Bytes → Bytes → Option Tablet
unfolding retrieve_checkpoint load_checkpoint replay_over
rebuild_tablet checkpoint log = elim (load_checkpoint (retrieve_checkpoint checkpoint).0) [
  | none ↦ none
  | some t ↦ replay_over (get_logs log) t
]
