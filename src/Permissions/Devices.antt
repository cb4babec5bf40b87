-- ===== src/Permissions/Devices.antt =====
-- The generator tables of src/elke27_lib/permissions.py, from ZWAVE_GENERATORS to ZWAVE_GENERATORS.
use elke.Base.{List, [], ◌∷◌, String}
use elke.Permissions.Level.{
  PermissionLevel, plt_encryption_key, plt_any_user, plt_master_user_disarmed,
  plt_installer_user_disarmed,
}

abbrev pub zwave_generators : List (String × PermissionLevel)
zwave_generators =
    ("zwave_get_table_info", plt_encryption_key)
    ∷ ("zwave_inclusion", plt_installer_user_disarmed)
    ∷ ("zwave_exclusion", plt_installer_user_disarmed)
    ∷ ("zwave_rem_failed", plt_installer_user_disarmed)
    ∷ ("zwave_abort", plt_installer_user_disarmed)
    ∷ ("zwave_restart", plt_master_user_disarmed)
    ∷ ("zwave_default", plt_installer_user_disarmed)
    ∷ ("zwave_clear", plt_installer_user_disarmed)
    ∷ ("zwave_get_attribs", plt_encryption_key)
    ∷ ("zwave_set_attribs", plt_installer_user_disarmed)
    ∷ ("zwave_get_configured", plt_encryption_key)
    ∷ ("zwave_get_trouble", plt_encryption_key)
    ∷ ("zwave_set_assoc", plt_installer_user_disarmed)
    ∷ ("zwave_assign_return_route", plt_installer_user_disarmed)
    ∷ ("zwave_heal_node", plt_master_user_disarmed)
    ∷ ("zwave_get_battery", plt_encryption_key)
    ∷ ("zwave_set_scene", plt_any_user)
    ∷ ("zwave_set_config", plt_installer_user_disarmed)
    ∷ ("zwave_get_rssi", plt_encryption_key)
    ∷ ("zwave_get_mfr", plt_encryption_key)
    ∷ ("zwave_get_route_info", plt_encryption_key)
    ∷ ("zwave_get_node_info", plt_encryption_key)
    ∷ ("zwave_get_secure_node_info", plt_encryption_key)
    ∷ ("zwave_get_supported_sensor", plt_encryption_key)
    ∷ []
