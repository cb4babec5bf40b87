-- ===== src/CommandKinds.antt =====
-- src/elke27_lib/command_kinds.py: the routes that only read the panel. A frozenset is the list of its
-- members, which only the test of membership reads.
mod Tests
use Prim.Native.String.{String}
use elke.Base.{Bool, true, false, List, [], ◌∷◌, if◌then◌else◌}
use elke.Base.Dict.{pair_key}

-- `READ_ONLY_ROUTES`
abbrev pub read_only_routes : List (String × String)
read_only_routes =
    ("area", "get_attribs")
    ∷ ("area", "get_bypassed_zones")
    ∷ ("area", "get_configured")
    ∷ ("area", "get_def_flags")
    ∷ ("area", "get_status")
    ∷ ("area", "get_table_info")
    ∷ ("area", "get_troubles")
    ∷ ("area", "get_unsecure_zones")
    ∷ ("area", "num_not_rdy_zones")
    ∷ ("barrier", "get_attribs")
    ∷ ("barrier", "get_configured")
    ∷ ("barrier", "get_status")
    ∷ ("barrier", "get_table_info")
    ∷ ("bus_io_dev", "get_attribs")
    ∷ ("bus_io_dev", "get_configured")
    ∷ ("bus_io_dev", "get_dev_error_counts")
    ∷ ("bus_io_dev", "get_error_counts")
    ∷ ("bus_io_dev", "get_table_info")
    ∷ ("bus_io_dev", "get_trouble")
    ∷ ("bus_io_dev", "get_version_info")
    ∷ ("cell", "get_attribs")
    ∷ ("cell", "get_table_info")
    ∷ ("control", "get_factory_attribs")
    ∷ ("control", "get_ssp_version_info")
    ∷ ("control", "get_system_time")
    ∷ ("control", "get_table_alloc_info")
    ∷ ("control", "get_table_info")
    ∷ ("control", "get_trouble")
    ∷ ("control", "get_version_info")
    ∷ ("cs_param", "get_attribs")
    ∷ ("cs_param", "get_configured")
    ∷ ("cs_param", "get_cs_paths")
    ∷ ("cs_param", "get_def_flags")
    ∷ ("cs_param", "get_table_info")
    ∷ ("cs_param", "get_trouble")
    ∷ ("flag", "get_attribs")
    ∷ ("flag", "get_configured")
    ∷ ("flag", "get_table_info")
    ∷ ("keyfob", "get_attribs")
    ∷ ("keyfob", "get_configured")
    ∷ ("keyfob", "get_table_info")
    ∷ ("keyfob", "get_trouble")
    ∷ ("keypad", "get_attribs")
    ∷ ("keypad", "get_configured")
    ∷ ("keypad", "get_def_flags")
    ∷ ("keypad", "get_table_info")
    ∷ ("keypad", "get_version_info")
    ∷ ("light", "get_attribs")
    ∷ ("light", "get_configured")
    ∷ ("light", "get_status")
    ∷ ("light", "get_table_info")
    ∷ ("lock", "get_attribs")
    ∷ ("lock", "get_configured")
    ∷ ("lock", "get_status")
    ∷ ("lock", "get_table_info")
    ∷ ("lock", "get_user_code")
    ∷ ("log", "get_attribs")
    ∷ ("log", "get_index")
    ∷ ("log", "get_list")
    ∷ ("log", "get_log")
    ∷ ("log", "get_table_info")
    ∷ ("log", "get_trouble")
    ∷ ("net_dev", "get_attribs")
    ∷ ("net_dev", "get_creds")
    ∷ ("net_dev", "get_list")
    ∷ ("net_dev", "get_table_info")
    ∷ ("network", "get_attribs")
    ∷ ("network", "get_rssi")
    ∷ ("network", "get_ssid")
    ∷ ("network", "get_table_info")
    ∷ ("output", "get_all_outputs_status")
    ∷ ("output", "get_attribs")
    ∷ ("output", "get_available")
    ∷ ("output", "get_configured")
    ∷ ("output", "get_status")
    ∷ ("output", "get_table_info")
    ∷ ("register", "get_attribs")
    ∷ ("register", "get_configured")
    ∷ ("register", "get_table_info")
    ∷ ("repeater", "get_attribs")
    ∷ ("repeater", "get_configured")
    ∷ ("repeater", "get_table_info")
    ∷ ("rule", "get_rules")
    ∷ ("rule", "get_storage_size")
    ∷ ("rule", "get_table_info")
    ∷ ("rule", "get_trouble")
    ∷ ("system", "file_info")
    ∷ ("system", "get_attribs")
    ∷ ("system", "get_cutoffs")
    ∷ ("system", "get_debug_flags")
    ∷ ("system", "get_debug_string")
    ∷ ("system", "get_sounders")
    ∷ ("system", "get_system_time")
    ∷ ("system", "get_table_info")
    ∷ ("system", "get_trouble")
    ∷ ("system", "get_troubles")
    ∷ ("system", "get_update")
    ∷ ("system", "r_u_alive")
    ∷ ("task", "get_attribs")
    ∷ ("task", "get_configured")
    ∷ ("task", "get_table_info")
    ∷ ("template", "get_configured")
    ∷ ("timer", "get_attribs")
    ∷ ("timer", "get_configured")
    ∷ ("timer", "get_table_info")
    ∷ ("tstat", "get_attribs")
    ∷ ("tstat", "get_configured")
    ∷ ("tstat", "get_status")
    ∷ ("tstat", "get_table_info")
    ∷ ("user", "get_attribs")
    ∷ ("user", "get_configured")
    ∷ ("user", "get_def_flags")
    ∷ ("user", "get_table_info")
    ∷ ("user_value", "get_attribs")
    ∷ ("user_value", "get_configured")
    ∷ ("user_value", "get_table_info")
    ∷ ("usergroup", "get_attribs")
    ∷ ("usergroup", "get_configured")
    ∷ ("usergroup", "get_table_info")
    ∷ ("wiegand", "get_attribs")
    ∷ ("wiegand", "get_configured")
    ∷ ("wiegand", "get_table_info")
    ∷ ("win_cover", "get_attribs")
    ∷ ("win_cover", "get_configured")
    ∷ ("win_cover", "get_status")
    ∷ ("win_cover", "get_table_info")
    ∷ ("wltx", "get_attribs")
    ∷ ("wltx", "get_configured")
    ∷ ("wltx", "get_table_info")
    ∷ ("wltx", "get_trouble")
    ∷ ("wltx", "get_version_info")
    ∷ ("zone", "get_all_zones_status")
    ∷ ("zone", "get_attribs")
    ∷ ("zone", "get_available")
    ∷ ("zone", "get_configured")
    ∷ ("zone", "get_def_flags")
    ∷ ("zone", "get_defs")
    ∷ ("zone", "get_status")
    ∷ ("zone", "get_table_info")
    ∷ ("zone", "pwr_get_trouble")
    ∷ ("zwave", "get_attribs")
    ∷ ("zwave", "get_battery")
    ∷ ("zwave", "get_configured")
    ∷ ("zwave", "get_mfr")
    ∷ ("zwave", "get_node_info")
    ∷ ("zwave", "get_route_info")
    ∷ ("zwave", "get_rssi")
    ∷ ("zwave", "get_secure_node_info")
    ∷ ("zwave", "get_supported_sensor")
    ∷ ("zwave", "get_table_info")
    ∷ ("zwave", "get_trouble")
    ∷ []

abbrev pub has_route : String → String → List (String × String) → Bool
has_route domain command [] = false
has_route domain command ((d, c) ∷ routes) =
    if pair_key.same (domain, command) (d, c) then true else has_route domain command routes

unfoldable pub is_read_only_route : String → String → Bool
is_read_only_route domain command = has_route domain command read_only_routes
