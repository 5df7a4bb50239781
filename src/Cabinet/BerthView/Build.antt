-- ===== src/Cabinet/BerthView/Build.antt =====
-- `build` of backend/app/cabinet/berth_view.py: the rows of the cabinet become one row for each berth.
use erp_iot.Base.{
  ℕ, String, Bool, true, false, not, ◌&&◌, ◌||◌, Option, none, some, List, [], ◌∷◌, ◌++◌, map, any,
  select, if◌then◌else◌, str_eq,
}
use erp_iot.Base.Int.{ℤ, pos}
use erp_iot.Base.Json.{
  Json, null, bool, int, float, str, obj, end, Dict, get, get_json, is_text, is_null, truthy,
  truncate,
}
use erp_iot.Base.Time.{Time, older_than}
use erp_iot.Cabinet.BerthStatus.{
  BerthSignals, BerthStatus, compute, default_heartbeat_interval, vessel_fresh_for, StatusCode,
  no_contact, standalone, outlet_silent, Connection, online,
}
use erp_iot.Cabinet.Outcomes.{Outcome}
use erp_iot.Cabinet.SessionPayload.{Result, ok, ◌>>=◌, or_raise, key_error}
use erp_iot.Cabinet.BerthView.{
  pick, fields_of, same_key, hashed, outlet_name, parse_iso, is_electric, outlets_for,
  berths_sharing, Reads, data_is_stale, stale_reads, oldest, dict_data, list_data, rows_of, sockets,
}
use erp_iot.Sessions.{FromIso}

-- the reads by cabinet and outlet, the last one first
pub record Tables : Type 0 where
  pub alarm_types : List (Json × Json)
  pub loads : List (Json × String × Dict)
  pub trips : List (Json × String × Bool)
  pub active_power : List (Json × String)

unfoldable pub alarm_types_of : List Json → Result (List (Json × Json))
alarm_types_of [] = ok []
alarm_types_of (a ∷ alarms) = do
  pk ← hashed (← pick "pedestal_id" a)
  kind ← hashed (← pick "alarm_type" a)
  rest ← alarm_types_of alarms
  ok ((pk, kind) ∷ rest)

-- one row of the loads: its outlet and its fields
abbrev socket_row : Json → Result (String × Dict)
socket_row row = do
  fields ← fields_of row
  id ← or_raise (get "socket_id" fields) key_error
  name ← outlet_name id
  ok (name, fields)

abbrev loads_onto :
    Json → List (Json × String × Dict) → List Json → Result (List (Json × String × Dict))
loads_onto pk known [] = ok known
loads_onto pk known (row ∷ rows) =
    socket_row row >>= λ r. loads_onto pk ((pk, r.0, r.1) ∷ known) rows

unfoldable pub loads_of :
    List (Json × Outcome) → List (Json × String × Dict) → Result (List (Json × String × Dict))
loads_of [] known = ok known
loads_of ((pk, o) ∷ reads) known =
    sockets o >>= λ rows. loads_onto pk known rows >>= λ more. loads_of reads more

abbrev tripped : Json × String × Dict → Json × String × Bool
tripped (pk, name, fields) = (pk, name, is_text "tripped" (get_json "breaker_state" fields))

-- an active session of electricity; one of water never counts
abbrev powered : (s kind socket : Json) → Result (List (Json × String))
powered s kind socket =
    if is_text "electricity" kind && not (is_null socket)
    then (pick "pedestal_id" s >>= λ pk.
        outlet_name socket >>= λ name. hashed pk >>= λ key. ok ((key, name) ∷ []))
    else ok []

abbrev power_row : Json → Result (List (Json × String))
power_row s = pick "type" s >>= λ kind. pick "socket_id" s >>= λ socket. powered s kind socket

unfoldable pub active_power_of : List Json → Result (List (Json × String))
active_power_of [] = ok []
active_power_of (s ∷ ss) = do row ← power_row s; rest ← active_power_of ss; ok (row ++ rest)

abbrev pub tables_of : Reads → Result Tables
tables_of r = do
  alarms ← rows_of r.alarms
  kinds ← alarm_types_of alarms
  loads ← loads_of r.load []
  breakers ← loads_of r.breakers []
  sessions ← rows_of r.sessions
  power ← active_power_of sessions
  ok (record {
    alarm_types = kinds;
    loads = loads;
    trips = map tripped breakers;
    active_power = power;
  })

module _ (pk : Json) (name : String) where
  abbrev pub load_of : List (Json × String × Dict) → Option Dict
  load_of [] = none
  load_of ((k, n, fields) ∷ rows) =
      if same_key k pk && str_eq n name then some fields else load_of rows

  abbrev pub trip_of : List (Json × String × Bool) → Bool
  trip_of [] = false
  trip_of ((k, n, b) ∷ rows) = if same_key k pk && str_eq n name then b else trip_of rows

-- `SWITCH` and `CONTROLS_FOR`
pub data Switch : Type 0 where
  on off unknown : Switch

pub data Command : Type 0 where
  activate stop : Command

abbrev pub switch_of : Json → Switch
switch_of (str s) =
    if str_eq s "active" then on else if str_eq s "idle" || str_eq s "pending" then off else unknown
switch_of v = unknown

abbrev pub controls_for : Switch → List Command
controls_for on = stop ∷ []
controls_for off = activate ∷ []
controls_for unknown = activate ∷ stop ∷ []

pub record Reading : Type 0 where
  pub phases : Json
  pub rated_amps : Json
  pub current_amps : List Json
  pub power_kw : Json
  pub load_status : Json
  pub state : Json

-- `electricity_reading`
abbrev pub electricity_reading : Dict → Reading
electricity_reading load =
    let phases = get_json "phases" load in
    let state = get_json "display_state" load in
    record {
      phases = phases;
      rated_amps = get_json "rated_amps" load;
      current_amps =
          if same_key phases (int (pos 3))
          then get_json "current_l1" load
            ∷ get_json "current_l2" load
            ∷ get_json "current_l3" load
            ∷ []
          else get_json "current_amps" load ∷ [];
      power_kw = get_json "power_kw" load;
      load_status = get_json "load_status" load;
      state = if truthy state then state else str "unknown";
    }

-- an outlet of electricity has a reading, one of water has none and its state is "unknown"
pub record OutletRow : Type 0 where
  pub name : String
  pub reading : Option Reading
  pub breaker_tripped : Bool
  pub shared_with_berths : List ℕ
  pub switch : Switch
  pub controls : Option (List Command)

pub record BerthRow : Type 0 where
  pub berth_id : Json
  pub name : Json
  pub pk : Json
  pub display_id : Json
  pub signals : BerthSignals
  pub status : BerthStatus
  pub outlets : List OutletRow

pub record View : Type 0 where
  pub berths : List BerthRow
  pub is_stale : Bool
  pub device_type : Option String

abbrev pub is_shut : StatusCode → Bool
is_shut no_contact = true
is_shut standalone = true
is_shut outlet_silent = true
is_shut _ = false

abbrev pub is_online : Connection → Bool
is_online online = true
is_online _ = false

abbrev pub can_control : Reads → BerthStatus → Bool
can_control r status =
    r.controls_enabled && (not (is_shut status.status_code) && is_online status.connection)

module _ (r : Reads) (t : Tables) (pk bid : Json) (controllable : Bool) where
  abbrev pub controls_of : Switch → Option (List Command)
  controls_of switch = if controllable then some (controls_for switch) else none

  abbrev pub electric_row : (name : String) → Reading → Result OutletRow
  electric_row name reading = hashed reading.state >>= λ state. ok (record {
    name = name;
    reading = some reading;
    breaker_tripped = trip_of pk name t.trips;
    shared_with_berths = berths_sharing r.config name bid;
    switch = switch_of state;
    controls = controls_of (switch_of state);
  })

  abbrev water_row : (name : String) → OutletRow
  water_row name = record {
    name = name;
    reading = none;
    breaker_tripped = false;
    shared_with_berths = berths_sharing r.config name bid;
    switch = Switch.unknown;
    controls = controls_of Switch.unknown;
  }

  -- a socket that the cabinet does not report is left out
  abbrev pub outlet_rows_of : (name : String) → Option Dict → Result (List OutletRow)
  outlet_rows_of name none = ok []
  outlet_rows_of name (some load) =
      electric_row name (electricity_reading load) >>= λ row. ok (row ∷ [])

  abbrev pub outlet_row : (name : String) → Result (List OutletRow)
  outlet_row name =
      if is_electric name
      then outlet_rows_of name (load_of pk name t.loads)
      else ok (water_row name ∷ [])

  unfoldable pub outlet_rows : List String → Result (List OutletRow)
  outlet_rows [] = ok []
  outlet_rows (name ∷ names) = do row ← outlet_row name; rest ← outlet_rows names; ok (row ++ rest)

-- only `False` itself means that the cabinet runs on its own
abbrev pub smart_mode_of : Json → Option Bool
smart_mode_of (bool b) = some b
smart_mode_of v = none

-- the number that a dictionary of 0, 1 and 2 looks up; any other value is in none of its keys
abbrev pub state_code_of : Json → Option ℤ
state_code_of (int n) = some n
state_code_of (bool true) = some (pos 1)
state_code_of (bool false) = some (pos 0)
state_code_of (float x) = if same_key (int (truncate x)) (float x) then some (truncate x) else none
state_code_of v = none

-- the lookup of a list or a dictionary, where the analysis is fresh
abbrev pub looked_up : Time → Json → Option Time → Result Json
looked_up now code none = ok code
looked_up now code (some at) = if older_than now at vessel_fresh_for then ok code else hashed code

-- `bool((s_pk.get(name) or {}).get("alarm"))`
abbrev pub sensor_alarm : String → Dict → Result Bool
sensor_alarm name s_pk =
    let v = get_json name s_pk in
    if truthy v then (pick "alarm" v >>= λ a. ok (truthy a)) else ok false

abbrev raised : Json → String → List (Json × Json) → Bool
raised pk kind types = any (λ e. same_key e.0 pk && is_text kind e.1) types

abbrev pub power_of : Json → List String → List (Json × String) → Option Bool
power_of pk [] active = none
power_of pk (name ∷ names) active =
    some (any (λ o. any (λ e. same_key e.0 pk && str_eq e.1 o) active) (name ∷ names))

abbrev is_auto_stopped : Option Dict → Bool
is_auto_stopped none = false
is_auto_stopped (some load) = is_text "auto_stop" (get_json "load_status" load)

abbrev reserved_of : Option (List Json) → Json → Option Bool
reserved_of none bid = none
reserved_of (some ids) bid = some (any (λ i. same_key i bid) ids)

abbrev pub status_of : Json → List (Json × Outcome) → Dict
status_of pk [] = []
status_of pk ((k, o) ∷ rest) = if same_key k pk then dict_data o else status_of pk rest

module _ (text_of : Json → String) (from_iso : FromIso) (r : Reads) (t : Tables) where
  -- `cab`
  abbrev pub cab : Json → Json
  cab null = obj end
  cab pk = elim (get (text_of pk) (dict_data r.health)) [ none ↦ obj end | some c ↦ c ]

  unfoldable pub signals_of : (b c pk bid : Json) → Result BerthSignals
  signals_of b c pk bid =
      let elec = select is_electric (outlets_for r.config bid) in
      let s_pk = status_of pk r.status in
      do
        last_heartbeat ← parse_iso from_iso (← pick "last_heartbeat" c)
        smart_mode ← pick "smart_mode" c
        leak ← sensor_alarm "moisture" s_pk
        hot ← sensor_alarm "temperature" s_pk
        state_code ← pick "state_code" b
        last_analyzed ← parse_iso from_iso (← pick "last_analyzed" b)
        code ← looked_up r.now state_code last_analyzed
        ok (record {
          now = r.now;
          last_heartbeat = last_heartbeat;
          smart_mode = smart_mode_of smart_mode;
          data_is_stale = data_is_stale r;
          data_synced_at = oldest (stale_reads r);
          outlet_silent = false;
          water_leak = leak || raised pk "moisture" t.alarm_types;
          too_hot = hot || raised pk "temperature" t.alarm_types;
          auto_off_overload = any (λ o. is_auto_stopped (load_of pk o t.loads)) elec;
          breaker_tripped = any (λ o. trip_of pk o t.trips) elec;
          measurement_missing = false;
          state_code = state_code_of code;
          last_analyzed = last_analyzed;
          power_active = power_of pk elec t.active_power;
          reserved = reserved_of r.reserved bid;
          heartbeat_interval = default_heartbeat_interval;
          has_cabinet = true;
        })

  unfoldable pub berth_row : Json → Result BerthRow
  berth_row b = do
    bid ← hashed (← pick "id" b)
    pk ← hashed (← pick "pedestal_id" b)
    signals ← signals_of b (cab pk) pk bid
    let status = compute signals
    outlets ← outlet_rows r t pk bid (can_control r status) (outlets_for r.config bid)
    name ← pick "name" b
    display_id ← pick "opta_client_id" (cab pk)
    ok (record {
      berth_id = bid;
      name = name;
      pk = pk;
      display_id = display_id;
      signals = signals;
      status = status;
      outlets = outlets;
    })

  unfoldable pub berth_rows : List Json → Result (List BerthRow)
  berth_rows [] = ok []
  berth_rows (b ∷ bs) = do row ← berth_row b; rest ← berth_rows bs; ok (row ∷ rest)

abbrev pub view_of : Reads → List BerthRow → View
view_of r rows = record {
  berths = rows;
  is_stale = data_is_stale r;
  device_type = r.config.device_type;
}

unfoldable pub build : (text_of : Json → String) → FromIso → Reads → Result View
build text_of from_iso r = tables_of r >>= λ t.
    berth_rows text_of from_iso r t (list_data r.berths) >>= λ rows. ok (view_of r rows)
