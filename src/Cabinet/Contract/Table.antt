-- ===== src/Cabinet/Contract/Table.antt =====
-- `_TABLE` of backend/app/cabinet/contract.py: every cabinet call that the ERP may make.
use erp_iot.Base.{String, List, [], ◌∷◌}

pub data Method : Type 0 where
  get post : Method

pub data IdType : Type 0 where
  none pk pk_or_display : IdType

pub data Mode : Type 0 where
  monitor bidirectional : Mode

pub record Endpoint : Type 0 where
  pub key : String
  pub method : Method
  pub catalog_path : String
  pub id_type : IdType
  pub mode : Mode

abbrev endpoint : String → Method → String → IdType → Mode → Endpoint
endpoint key method catalog_path id_type mode = record {
  key = key;
  method = method;
  catalog_path = catalog_path;
  id_type = id_type;
  mode = mode;
}

unfoldable pub endpoints : List Endpoint
endpoints =
    endpoint "pedestals.health" get "/api/pedestals/health" IdType.none monitor
    ∷ endpoint "pedestals.list" get "/api/pedestals" IdType.none monitor
    ∷ endpoint "pedestals.status_ext" get "/api/ext/pedestals/{pedestal_id}/status"
        IdType.pk_or_display monitor
    ∷ endpoint "water.status_ext" get "/api/ext/pedestals/{pedestal_id}/water" IdType.pk_or_display
        monitor
    ∷ endpoint "berths.list" get "/api/berths" IdType.none monitor
    ∷ endpoint "berths.occupancy_ext" get "/api/ext/pedestals/{pedestal_id}/berths/occupancy"
        IdType.pk_or_display monitor
    ∷ endpoint "sessions.active" get "/api/sessions/active" IdType.none monitor
    ∷ endpoint "sessions.pending" get "/api/sessions/pending" IdType.none monitor
    ∷ endpoint "alarms.active" get "/api/alarms/active" IdType.none monitor
    ∷ endpoint "alarms.acknowledge" post "/api/alarms/{alarm_id}/acknowledge" IdType.none
        bidirectional
    ∷ endpoint "analytics.daily" get "/api/analytics/consumption/daily" IdType.none monitor
    ∷ endpoint "analytics.summary" get "/api/analytics/sessions/summary" IdType.none monitor
    ∷ endpoint "sockets.config_list" get "/api/pedestals/{pedestal_id}/sockets/config" IdType.pk
        monitor
    ∷ endpoint "valves.config_list" get "/api/pedestals/{pedestal_id}/valves/config" IdType.pk
        monitor
    ∷ endpoint "load.pedestal_get_ext" get "/api/ext/pedestals/{pedestal_id}/load" IdType.pk monitor
    ∷ endpoint "load.socket_get_ext" get "/api/ext/pedestals/{pedestal_id}/sockets/{socket_id}/load"
        IdType.pk monitor
    ∷ endpoint "load.socket_history_ext" get
        "/api/ext/pedestals/{pedestal_id}/sockets/{socket_id}/load/history" IdType.pk monitor
    ∷ endpoint "load.pedestal_alarms_ext" get "/api/ext/pedestals/{pedestal_id}/load/alarms"
        IdType.pk monitor
    ∷ endpoint "load.marina_alarms_ext" get "/api/ext/marinas/{marina_id}/load/alarms" IdType.none
        monitor
    ∷ endpoint "breakers.pedestal_list_ext" get "/api/ext/pedestals/{pedestal_id}/breakers"
        IdType.pk monitor
    ∷ endpoint "breakers.socket_get_ext" get
        "/api/ext/pedestals/{pedestal_id}/sockets/{socket_id}/breaker" IdType.pk monitor
    ∷ endpoint "breakers.pedestal_history_ext" get
        "/api/ext/pedestals/{pedestal_id}/breaker/history" IdType.pk monitor
    ∷ endpoint "breakers.marina_alarms_ext" get "/api/ext/marinas/{marina_id}/breaker/alarms"
        IdType.none monitor
    ∷ endpoint "usage.history" get "/api/pedestals/{pedestal_id}/usage/history" IdType.pk monitor
    ∷ endpoint "controls.socket_cmd" post
        "/api/controls/pedestal/{pedestal_id}/socket/{socket_name}/cmd" IdType.pk bidirectional
    ∷ endpoint "controls.water_cmd" post
        "/api/controls/pedestal/{pedestal_id}/water/{valve_name}/cmd" IdType.pk bidirectional
    ∷ endpoint "controls.allow" post "/api/controls/{session_id}/allow" IdType.none bidirectional
    ∷ endpoint "controls.deny" post "/api/controls/{session_id}/deny" IdType.none bidirectional
    ∷ endpoint "controls.stop" post "/api/controls/{session_id}/stop" IdType.none bidirectional
    ∷ endpoint "diagnostics.run" post "/api/pedestals/{pedestal_id}/diagnostics/run" IdType.pk
        bidirectional
    ∷ endpoint "berths.push_image_ext" post
        "/api/ext/pedestals/{pedestal_id}/berths/{berth_id}/reference-image" IdType.pk_or_display
        bidirectional
    ∷ []

-- `NEVER_ENABLE`: the calls that the ERP never makes
abbrev pub never_enable : List String
never_enable =
    "breakers.socket_reset_ext" ∷ "load.auto_stop_ack_ext" ∷ "led_schedule.get"
    ∷ "led_schedule.upsert" ∷ "led_schedule.delete" ∷ "led_schedule.test" ∷ "controls.reset"
    ∷ "controls.led" ∷ "sockets.config_patch" ∷ "valves.config_patch" ∷ "controls.socket_approve"
    ∷ "controls.socket_reject" ∷ []
