-- ===== src/Permissions/Table.antt =====
-- `GENERATOR_PERMISSION` and its lookups in src/elke27_lib/permissions.py.
use text.Mathlib.Text.{starts_with}
use Prim.Native.String.{len, slice}
use elke.Base.{Option, none, some, List, [], ◌∷◌, String, if◌then◌else◌}
use elke.Base.Result.{Result, ok, err}
use elke.Base.Dict.{Dict, string_key, lookup, insert}
use elke.Permissions.Level.{PermissionLevel}
use elke.Permissions.Areas.{
  area_generators, barrier_generators, bus_ios_generators, cell_generators, log_generators,
  control_generators, system_generators, cs_param_generators, flag_generators, keyfob_generators,
  keypad_generators, light_generators, lock_generators,
}
use elke.Permissions.Panel.{
  network_param_generators, net_dev_generators, output_generators, register_generators,
  rule_generators, task_generators, timer_generators, tstat_generators, user_value_generators,
  usergroup_generators, user_generators, wiegand_generators, win_cover_generators, wltx_generators,
  zone_generators, repeater_generators,
}
use elke.Permissions.Devices.{zwave_generators}

-- `_GENERATOR_GROUPS`
abbrev pub generator_groups : List (List (String × PermissionLevel))
generator_groups =
    area_generators ∷ barrier_generators ∷ bus_ios_generators ∷ cell_generators ∷ log_generators
    ∷ control_generators ∷ system_generators ∷ cs_param_generators ∷ flag_generators
    ∷ keyfob_generators ∷ keypad_generators ∷ light_generators ∷ lock_generators
    ∷ network_param_generators ∷ net_dev_generators ∷ output_generators ∷ register_generators
    ∷ rule_generators ∷ task_generators ∷ timer_generators ∷ tstat_generators
    ∷ user_value_generators ∷ usergroup_generators ∷ user_generators ∷ wiegand_generators
    ∷ win_cover_generators ∷ wltx_generators ∷ zone_generators ∷ repeater_generators
    ∷ zwave_generators ∷ []

-- `permissions[generator_key] = level` for each pair of a group, and for each group
abbrev pub add_group :
    Dict String PermissionLevel → List (String × PermissionLevel) → Dict String PermissionLevel
add_group permissions [] = permissions
add_group permissions ((generator_key, level) ∷ group) =
    add_group (insert generator_key level permissions) group

abbrev pub add_groups :
    Dict String PermissionLevel
    → List (List (String × PermissionLevel))
    → Dict String PermissionLevel
add_groups permissions [] = permissions
add_groups permissions (group ∷ groups) = add_groups (add_group permissions group) groups

-- `_build_generator_permission`
unfoldable pub generator_permission : Dict String PermissionLevel
generator_permission = add_groups [] generator_groups

unfoldable pub canonical_generator_key : String → String
canonical_generator_key name =
    if starts_with name "generator_" then slice name 10 (len name) else name

-- `permission_for_generator`, in any table; a missing key is an `Elke27ProtocolError`.
pub data NoPermission : Type 0 where
  no_permission : String → NoPermission

abbrev pub found_level : String → Option PermissionLevel → Result NoPermission PermissionLevel
found_level generator_key none = err (no_permission generator_key)
found_level generator_key (some level) = ok level

unfoldable pub permission_in :
    Dict String PermissionLevel → String → Result NoPermission PermissionLevel
unfolding canonical_generator_key
permission_in permissions generator_key =
    let key = canonical_generator_key generator_key in found_level key (lookup key permissions)

unfoldable pub permission_for_generator : String → Result NoPermission PermissionLevel
unfolding generator_permission permission_in
permission_for_generator = permission_in generator_permission
