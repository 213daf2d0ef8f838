-- ===== src/Tests/Files.antt =====
-- Tablets and logs as bytes.
use penn_cloud.Prelude.{bytes_eq, ◌≡◌, refl, true, [], ◌∷◌, ◌++◌, arith, take}
use penn_cloud.Map.{lookup}
use penn_cloud.Tablet.Form.{IsFormed}
use penn_cloud.Wire.{write_u32, write_string}
use penn_cloud.Serializer.{serialize_tablet, deserialize_tablet}
use penn_cloud.Serializer.RoundTrip.{deserialize_tablet-serialize_tablet}
use penn_cloud.Logger.{write_command, get_logs}
use penn_cloud.Logger.Torn.{write_commands, get_logs-torn}
use penn_cloud.Op.{log_entry}
use penn_cloud.Tests.Platforms.{put_one, change_one, small}

pub small-IsFormed : IsFormed small
unfolding lookup bytes_eq
small-IsFormed = record {
  distinct = (refl, (refl, tt));
  rows = ((refl, (refl, (refl, tt))), ((refl, (refl, tt)), tt));
}

serialized_length : take 8 (serialize_tablet small) ≡ 2 ∷ 0 ∷ 0 ∷ 0 ∷ 3 ∷ 0 ∷ 0 ∷ 0 ∷ []
unfolding serialize_tablet write_string write_u32
serialized_length = refl

deserialize_tablet-serialize_tablet_example :
    deserialize_tablet [] (serialize_tablet small) ≡ (small, true)
deserialize_tablet-serialize_tablet_example =
    deserialize_tablet-serialize_tablet small small-IsFormed (omega arith)

get_logs-torn_example :
    get_logs
      (write_commands (log_entry put_one ∷ []) ++ take 7 (write_command (log_entry change_one)))
    ≡ log_entry put_one ∷ []
unfolding log_entry write_command write_string write_u32
get_logs-torn_example =
    get_logs-torn (log_entry put_one ∷ []) (log_entry change_one) 7 (omega arith) (omega arith)
      (omega arith)
