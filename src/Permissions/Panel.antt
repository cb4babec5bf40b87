-- ===== src/Permissions/Panel.antt =====
-- The generator tables of src/elke27_lib/permissions.py, from NETWORK_PARAM_GENERATORS to REPEATER_GENERATORS.
use elke.Base.{List, [], ◌∷◌, String}
use elke.Permissions.Level.{
  PermissionLevel, plt_encryption_key, plt_any_user, plt_installer_user, plt_master_user_disarmed,
  plt_installer_user_disarmed,
}

abbrev pub network_param_generators : List (String × PermissionLevel)
network_param_generators =
    ("network_get_table_info", plt_encryption_key)
    ∷ ("network_param_get_ssid", plt_installer_user)
    ∷ ("network_param_get_rssi", plt_encryption_key)
    ∷ ("network_param_get_attribs", plt_installer_user)
    ∷ ("network_param_set_attribs", plt_installer_user)
    ∷ ("network_restart", plt_installer_user)
    ∷ []

abbrev pub net_dev_generators : List (String × PermissionLevel)
net_dev_generators =
    ("link_function", plt_installer_user_disarmed)
    ∷ ("logout_function", plt_any_user)
    ∷ ("net_dev_get_attribs", plt_encryption_key)
    ∷ ("net_dev_set_attribs", plt_installer_user_disarmed)
    ∷ ("net_dev_get_creds", plt_installer_user)
    ∷ ("net_dev_set_creds", plt_installer_user_disarmed)
    ∷ ("net_dev_del_attribs", plt_installer_user_disarmed)
    ∷ ("net_dev_default", plt_installer_user_disarmed)
    ∷ ("net_dev_get_list", plt_encryption_key)
    ∷ ("net_dev_get_table_info", plt_encryption_key)
    ∷ []

abbrev pub output_generators : List (String × PermissionLevel)
output_generators =
    ("output_get_table_info", plt_encryption_key)
    ∷ ("output_get_attribs", plt_encryption_key)
    ∷ ("output_set_attribs", plt_installer_user_disarmed)
    ∷ ("output_del_attribs", plt_installer_user_disarmed)
    ∷ ("output_get_configured", plt_encryption_key)
    ∷ ("output_get_status", plt_encryption_key)
    ∷ ("output_set_status", plt_encryption_key)
    ∷ ("output_refresh_status", plt_encryption_key)
    ∷ ("output_realloc", plt_installer_user_disarmed)
    ∷ ("output_get_available", plt_encryption_key)
    ∷ ("output_get_all_outputs_status", plt_encryption_key)
    ∷ []

abbrev pub register_generators : List (String × PermissionLevel)
register_generators =
    ("register_get_table_info", plt_encryption_key)
    ∷ ("register_get_attribs", plt_encryption_key)
    ∷ ("register_set_attribs", plt_master_user_disarmed)
    ∷ ("register_get_configured", plt_encryption_key)
    ∷ ("register_del_attribs", plt_master_user_disarmed)
    ∷ []

abbrev pub rule_generators : List (String × PermissionLevel)
rule_generators =
    ("rule_get_table_info", plt_encryption_key)
    ∷ ("rule_get_storage_size", plt_encryption_key)
    ∷ ("rule_get_rules", plt_encryption_key)
    ∷ ("rule_set_rules", plt_installer_user_disarmed)
    ∷ ("rule_realloc", plt_installer_user_disarmed)
    ∷ ("rule_process", plt_encryption_key)
    ∷ ("rule_get_trouble", plt_encryption_key)
    ∷ []

abbrev pub task_generators : List (String × PermissionLevel)
task_generators =
    ("task_get_table_info", plt_encryption_key)
    ∷ ("task_get_attribs", plt_encryption_key)
    ∷ ("task_set_attribs", plt_installer_user_disarmed)
    ∷ ("task_del_attribs", plt_installer_user_disarmed)
    ∷ ("task_get_configured", plt_encryption_key)
    ∷ ("task_activate", plt_encryption_key)
    ∷ []

abbrev pub timer_generators : List (String × PermissionLevel)
timer_generators =
    ("timer_get_table_info", plt_encryption_key)
    ∷ ("timer_get_attribs", plt_encryption_key)
    ∷ ("timer_set_attribs", plt_master_user_disarmed)
    ∷ ("timer_get_configured", plt_encryption_key)
    ∷ ("timer_del_attribs", plt_master_user_disarmed)
    ∷ []

abbrev pub tstat_generators : List (String × PermissionLevel)
tstat_generators =
    ("tstat_get_table_info", plt_encryption_key)
    ∷ ("tstat_get_attribs", plt_encryption_key)
    ∷ ("tstat_set_attribs", plt_installer_user_disarmed)
    ∷ ("tstat_get_configured", plt_encryption_key)
    ∷ ("tstat_get_status", plt_encryption_key)
    ∷ ("tstat_set_status", plt_encryption_key)
    ∷ ("tstat_del_attribs", plt_installer_user_disarmed)
    ∷ ("tstat_realloc", plt_installer_user_disarmed)
    ∷ []

abbrev pub user_value_generators : List (String × PermissionLevel)
user_value_generators =
    ("user_value_get_table_info", plt_encryption_key)
    ∷ ("user_value_get_attribs", plt_encryption_key)
    ∷ ("user_value_set_attribs", plt_master_user_disarmed)
    ∷ ("user_value_get_configured", plt_encryption_key)
    ∷ ("user_value_del_attribs", plt_installer_user_disarmed)
    ∷ ("user_value_realloc", plt_installer_user_disarmed)
    ∷ []

abbrev pub usergroup_generators : List (String × PermissionLevel)
usergroup_generators =
    ("usergroup_get_table_info", plt_encryption_key)
    ∷ ("usergroup_get_attribs", plt_encryption_key)
    ∷ ("usergroup_set_attribs", plt_master_user_disarmed)
    ∷ ("usergroup_get_configured", plt_encryption_key)
    ∷ ("usergroup_del_attribs", plt_master_user_disarmed)
    ∷ []

abbrev pub user_generators : List (String × PermissionLevel)
user_generators =
    ("user_get_table_info", plt_encryption_key)
    ∷ ("user_get_def_flags", plt_master_user_disarmed)
    ∷ ("user_get_attribs", plt_any_user)
    ∷ ("user_set_attribs", plt_master_user_disarmed)
    ∷ ("user_del_attribs", plt_master_user_disarmed)
    ∷ ("user_get_configured", plt_encryption_key)
    ∷ ("user_realloc", plt_installer_user_disarmed)
    ∷ []

abbrev pub wiegand_generators : List (String × PermissionLevel)
wiegand_generators =
    ("wiegand_get_table_info", plt_encryption_key)
    ∷ ("wiegand_get_attribs", plt_encryption_key)
    ∷ ("wiegand_set_attribs", plt_master_user_disarmed)
    ∷ ("wiegand_del_attribs", plt_master_user_disarmed)
    ∷ ("wiegand_get_configured", plt_encryption_key)
    ∷ ("wiegand_realloc", plt_installer_user_disarmed)
    ∷ []

abbrev pub win_cover_generators : List (String × PermissionLevel)
win_cover_generators =
    ("win_cover_get_table_info", plt_encryption_key)
    ∷ ("win_cover_get_attribs", plt_encryption_key)
    ∷ ("win_cover_set_attribs", plt_installer_user_disarmed)
    ∷ ("win_cover_get_configured", plt_encryption_key)
    ∷ ("win_cover_get_status", plt_encryption_key)
    ∷ ("win_cover_set_status", plt_encryption_key)
    ∷ ("win_cover_del_attribs", plt_installer_user_disarmed)
    ∷ ("win_cover_realloc", plt_installer_user_disarmed)
    ∷ []

abbrev pub wltx_generators : List (String × PermissionLevel)
wltx_generators =
    ("wltx_get_table_info", plt_encryption_key)
    ∷ ("wltx_get_version_info", plt_encryption_key)
    ∷ ("wltx_get_attribs", plt_encryption_key)
    ∷ ("wltx_set_attribs", plt_installer_user_disarmed)
    ∷ ("wltx_del_attribs", plt_installer_user_disarmed)
    ∷ ("wltx_change_id", plt_installer_user_disarmed)
    ∷ ("wltx_get_configured", plt_encryption_key)
    ∷ ("wltx_get_trouble", plt_encryption_key)
    ∷ ("wltx_realloc", plt_installer_user_disarmed)
    ∷ ("wltx_start_discovery", plt_installer_user_disarmed)
    ∷ ("wltx_stop_discovery", plt_installer_user_disarmed)
    ∷ ("wltx_default", plt_installer_user_disarmed)
    ∷ []

abbrev pub zone_generators : List (String × PermissionLevel)
zone_generators =
    ("zone_get_table_info", plt_encryption_key)
    ∷ ("zone_get_defs", plt_encryption_key)
    ∷ ("zone_get_def_flags", plt_encryption_key)
    ∷ ("zone_get_attribs", plt_encryption_key)
    ∷ ("zone_set_attribs", plt_installer_user_disarmed)
    ∷ ("zone_get_configured", plt_encryption_key)
    ∷ ("zone_get_status", plt_encryption_key)
    ∷ ("zone_set_status", plt_encryption_key)
    ∷ ("zone_del_attribs", plt_installer_user_disarmed)
    ∷ ("zone_pwr_get_trouble", plt_encryption_key)
    ∷ ("zone_realloc", plt_installer_user_disarmed)
    ∷ ("zone_default", plt_installer_user_disarmed)
    ∷ ("zone_fill_default", plt_installer_user_disarmed)
    ∷ ("zone_get_available", plt_encryption_key)
    ∷ ("zone_get_all_zones_status", plt_encryption_key)
    ∷ []

abbrev pub repeater_generators : List (String × PermissionLevel)
repeater_generators =
    ("repeater_get_table_info", plt_encryption_key)
    ∷ ("repeater_get_attribs", plt_encryption_key)
    ∷ ("repeater_set_attribs", plt_installer_user_disarmed)
    ∷ ("repeater_get_configured", plt_encryption_key)
    ∷ ("repeater_del_attribs", plt_installer_user_disarmed)
    ∷ ("repeater_realloc", plt_installer_user_disarmed)
    ∷ []
