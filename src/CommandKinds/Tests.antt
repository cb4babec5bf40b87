-- ===== src/CommandKinds/Tests.antt =====
-- Runs of src/elke27_lib/command_kinds.py.
use elke.Base.{◌≡◌, refl, true, false}
use elke.CommandKinds.{is_read_only_route}

reads : is_read_only_route "bus_io_dev" "get_configured" ≡ true
unfolding is_read_only_route
reads = refl

writes : is_read_only_route "area" "set_arm_state" ≡ false
unfolding is_read_only_route
writes = refl
