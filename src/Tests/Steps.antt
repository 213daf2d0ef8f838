-- ===== src/Tests/Steps.antt =====
-- Single steps: writes on a tablet, their replay, and the heads of the handlers.
use penn_cloud.Prelude.{suc, bytes, bytes_eq, ◌≡◌, refl, []}
use mathlib.Core.Option as Opt
use penn_cloud.Map.{lookup, insert}
use penn_cloud.Tablet
use penn_cloud.Tablet.{Tablet, cell}
use penn_cloud.Tablet.Form.{IsFormed}
use penn_cloud.Placement.{get_tablet, get_logger, get_tablet_number_on_this_worker}
use penn_cloud.Placement.Hosts.{get_tablet-number}
use penn_cloud.Op
use penn_cloud.Op.{row, Applied, applied, apply, log_entry, replay_command}
use penn_cloud.Tests.Platforms.{change_one}

get_tablet-number_example :
    (get_tablet_number_on_this_worker 5 4 ≡ Opt.map suc (get_tablet 5 4))
    × (get_logger 5 4 ≡ get_tablet 5 4)
get_tablet-number_example = get_tablet-number 5 4

abbrev one : Tablet
one = Tablet.put (bytes "cat") (bytes "meta") (bytes "1") []

one-IsFormed : IsFormed one
unfolding Tablet.put Tablet.row_of lookup insert bytes_eq
one-IsFormed = record { distinct = (refl, tt); rows = ((refl, (refl, tt)), tt) }

abbrev changed : Tablet
changed = Tablet.put (bytes "cat") (bytes "meta") (bytes "22") []

change_one-applied : apply change_one one ≡ applied changed
unfolding apply Tablet.cput Tablet.put Tablet.row_of lookup insert bytes_eq Op.apply_cput
change_one-applied = refl
