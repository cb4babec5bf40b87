-- ===== src/Permissions/Areas.antt =====
-- The generator tables of src/elke27_lib/permissions.py, from AREA_GENERATORS to LOCK_GENERATORS.
use elke.Base.{List, [], ◌∷◌, String}
use elke.Permissions.Level.{
  PermissionLevel, plt_encryption_key, plt_any_user, plt_master_user, plt_installer_user,
  plt_encryption_key_disarmed, plt_master_user_disarmed, plt_installer_user_disarmed,
}

abbrev pub area_generators : List (String × PermissionLevel)
area_generators =
    ("area_get_table_info", plt_encryption_key)
    ∷ ("area_get_attribs", plt_encryption_key)
    ∷ ("area_set_attribs", plt_installer_user_disarmed)
    ∷ ("area_get_def_flags", plt_encryption_key)
    ∷ ("area_del_attribs", plt_installer_user_disarmed)
    ∷ ("area_get_configured", plt_encryption_key)
    ∷ ("area_get_bypassed_zones", plt_encryption_key)
    ∷ ("area_set_alarm_state", plt_encryption_key)
    ∷ ("area_get_status", plt_encryption_key)
    ∷ ("area_set_status", plt_encryption_key)
    ∷ ("area_set_arm_state", plt_encryption_key)
    ∷ ("area_alarm_test", plt_master_user_disarmed)
    ∷ ("area_realloc", plt_installer_user_disarmed)
    ∷ ("area_num_not_rdy_zones", plt_encryption_key)
    ∷ ("area_get_unsecure_zones", plt_encryption_key)
    ∷ ("area_get_troubles", plt_encryption_key)
    ∷ []

abbrev pub barrier_generators : List (String × PermissionLevel)
barrier_generators =
    ("barrier_get_table_info", plt_encryption_key)
    ∷ ("barrier_get_attribs", plt_encryption_key)
    ∷ ("barrier_set_attribs", plt_installer_user_disarmed)
    ∷ ("barrier_get_configured", plt_encryption_key)
    ∷ ("barrier_get_status", plt_encryption_key)
    ∷ ("barrier_set_status", plt_encryption_key)
    ∷ ("barrier_del_attribs", plt_installer_user_disarmed)
    ∷ []

abbrev pub bus_ios_generators : List (String × PermissionLevel)
bus_ios_generators =
    ("bus_ios_get_table_info", plt_encryption_key)
    ∷ ("bus_ios_get_configured", plt_encryption_key)
    ∷ ("bus_ios_get_attribs", plt_encryption_key)
    ∷ ("bus_ios_set_attribs", plt_installer_user_disarmed)
    ∷ ("bus_ios_del_attribs", plt_installer_user_disarmed)
    ∷ ("bus_ios_change_id", plt_installer_user_disarmed)
    ∷ ("bus_ios_get_version_info", plt_encryption_key)
    ∷ ("bus_ios_get_trouble", plt_encryption_key)
    ∷ ("bus_ios_realloc", plt_installer_user_disarmed)
    ∷ ("bus_ios_start_discovery", plt_installer_user_disarmed)
    ∷ ("bus_ios_stop_discovery", plt_installer_user_disarmed)
    ∷ ("bus_ios_get_error_counts", plt_encryption_key)
    ∷ ("bus_ios_get_dev_error_counts", plt_encryption_key)
    ∷ ("bus_ios_set_sn", plt_installer_user_disarmed)
    ∷ ("bus_ios_fill_default", plt_installer_user_disarmed)
    ∷ []

abbrev pub cell_generators : List (String × PermissionLevel)
cell_generators =
    ("cell_get_attribs", plt_encryption_key)
    ∷ ("cell_set_attribs", plt_installer_user_disarmed)
    ∷ ("cell_default", plt_installer_user_disarmed)
    ∷ ("cell_get_table_info", plt_encryption_key)
    ∷ []

abbrev pub log_generators : List (String × PermissionLevel)
log_generators =
    ("log_get_table_info", plt_encryption_key)
    ∷ ("log_get_log", plt_encryption_key)
    ∷ ("log_get_list", plt_encryption_key)
    ∷ ("log_clear", plt_installer_user_disarmed)
    ∷ ("log_get_trouble", plt_encryption_key)
    ∷ ("log_get_attribs", plt_encryption_key)
    ∷ ("log_set_attribs", plt_installer_user_disarmed)
    ∷ ("log_realloc", plt_installer_user_disarmed)
    ∷ ("log_get_index", plt_encryption_key)
    ∷ []

abbrev pub control_generators : List (String × PermissionLevel)
control_generators =
    ("control_authenticate", plt_any_user)
    ∷ ("control_get_version_info", plt_encryption_key)
    ∷ ("control_get_ssp_version_info", plt_encryption_key)
    ∷ ("control_get_table_info", plt_encryption_key)
    ∷ ("control_get_table_alloc_info", plt_encryption_key)
    ∷ ("control_default", plt_installer_user_disarmed)
    ∷ ("control_get_trouble", plt_encryption_key)
    ∷ ("control_silence_trouble", plt_encryption_key)
    ∷ ("control_get_system_time", plt_encryption_key)
    ∷ ("control_set_system_time", plt_master_user)
    ∷ ("control_get_factory_attribs", plt_encryption_key)
    ∷ ("control_set_factory_attribs", plt_installer_user)
    ∷ ("control_test_realloc", plt_installer_user)
    ∷ ("control_backup", plt_installer_user)
    ∷ ("control_restore", plt_installer_user_disarmed)
    ∷ ("control_load_default", plt_installer_user_disarmed)
    ∷ []

abbrev pub system_generators : List (String × PermissionLevel)
system_generators =
    ("system_get_table_info", plt_encryption_key)
    ∷ ("system_get_system_time", plt_encryption_key)
    ∷ ("system_set_system_time", plt_master_user_disarmed)
    ∷ ("system_set_system_key", plt_installer_user_disarmed)
    ∷ ("system_get_attribs", plt_encryption_key)
    ∷ ("system_set_attribs", plt_installer_user_disarmed)
    ∷ ("system_get_cutoffs", plt_encryption_key)
    ∷ ("system_set_cutoffs", plt_installer_user_disarmed)
    ∷ ("system_get_sounders", plt_encryption_key)
    ∷ ("system_reset_smokes", plt_encryption_key_disarmed)
    ∷ ("system_get_trouble", plt_encryption_key)
    ∷ ("system_get_troubles", plt_encryption_key)
    ∷ ("system_r_u_alive", plt_encryption_key)
    ∷ ("system_file_info", plt_installer_user)
    ∷ ("system_start_updt", plt_installer_user_disarmed)
    ∷ ("system_set_run", plt_installer_user_disarmed)
    ∷ ("system_reconfig", plt_installer_user_disarmed)
    ∷ ("system_set_debug_flags", plt_installer_user)
    ∷ ("system_get_debug_flags", plt_installer_user)
    ∷ ("system_get_debug_string", plt_installer_user)
    ∷ ("template_get_configured", plt_installer_user)
    ∷ ("system_get_update", plt_encryption_key)
    ∷ []

abbrev pub cs_param_generators : List (String × PermissionLevel)
cs_param_generators =
    ("cs_param_get_attribs", plt_encryption_key)
    ∷ ("cs_param_set_attribs", plt_installer_user_disarmed)
    ∷ ("cs_param_del_attribs", plt_installer_user_disarmed)
    ∷ ("cs_param_get_def_flags", plt_encryption_key)
    ∷ ("cs_param_get_configured", plt_encryption_key)
    ∷ ("cs_param_get_cs_paths", plt_encryption_key)
    ∷ ("cs_param_set_cs_paths", plt_installer_user_disarmed)
    ∷ ("cs_param_get_trouble", plt_encryption_key)
    ∷ ("cs_param_get_table_info", plt_encryption_key)
    ∷ ("cs_param_commtest", plt_installer_user_disarmed)
    ∷ []

abbrev pub flag_generators : List (String × PermissionLevel)
flag_generators =
    ("flag_get_table_info", plt_encryption_key)
    ∷ ("flag_get_attribs", plt_encryption_key)
    ∷ ("flag_set_attribs", plt_master_user_disarmed)
    ∷ ("flag_del_attribs", plt_master_user_disarmed)
    ∷ ("flag_get_configured", plt_encryption_key)
    ∷ []

abbrev pub keyfob_generators : List (String × PermissionLevel)
keyfob_generators =
    ("keyfob_get_table_info", plt_encryption_key)
    ∷ ("keyfob_get_attribs", plt_encryption_key)
    ∷ ("keyfob_set_attribs", plt_installer_user_disarmed)
    ∷ ("keyfob_del_attribs", plt_installer_user_disarmed)
    ∷ ("keyfob_change_id", plt_installer_user_disarmed)
    ∷ ("keyfob_get_configured", plt_encryption_key)
    ∷ ("keyfob_default", plt_installer_user_disarmed)
    ∷ ("keyfob_get_trouble", plt_encryption_key)
    ∷ []

abbrev pub keypad_generators : List (String × PermissionLevel)
keypad_generators =
    ("keypad_get_table_info", plt_encryption_key)
    ∷ ("keypad_get_attribs", plt_encryption_key)
    ∷ ("keypad_set_attribs", plt_installer_user_disarmed)
    ∷ ("keypad_del_attribs", plt_installer_user_disarmed)
    ∷ ("keypad_change_id", plt_installer_user_disarmed)
    ∷ ("keypad_get_configured", plt_encryption_key)
    ∷ ("keypad_get_version_info", plt_encryption_key)
    ∷ ("keypad_get_def_flags", plt_encryption_key)
    ∷ []

abbrev pub light_generators : List (String × PermissionLevel)
light_generators =
    ("light_get_table_info", plt_encryption_key)
    ∷ ("light_get_attribs", plt_encryption_key)
    ∷ ("light_set_attribs", plt_installer_user_disarmed)
    ∷ ("light_get_configured", plt_encryption_key)
    ∷ ("light_get_status", plt_encryption_key)
    ∷ ("light_set_status", plt_encryption_key)
    ∷ ("light_del_attribs", plt_installer_user_disarmed)
    ∷ []

abbrev pub lock_generators : List (String × PermissionLevel)
lock_generators =
    ("lock_get_table_info", plt_encryption_key)
    ∷ ("lock_get_attribs", plt_encryption_key)
    ∷ ("lock_set_attribs", plt_installer_user_disarmed)
    ∷ ("lock_get_configured", plt_encryption_key)
    ∷ ("lock_get_status", plt_encryption_key)
    ∷ ("lock_set_status", plt_encryption_key)
    ∷ ("lock_del_attribs", plt_installer_user_disarmed)
    ∷ ("lock_get_user_code", plt_master_user_disarmed)
    ∷ ("lock_set_user_code", plt_master_user_disarmed)
    ∷ []
