-- ===== src/Cabinet/BerthView/Tests.antt =====
-- backend/app/cabinet/berth_view.py: a berth with one socket, and the witness.
use erp_iot.Base.{
  ℕ, String, ◌≡◌, refl, Bool, true, false, Option, none, some, List, [], ◌∷◌, All, map,
}
use erp_iot.Base.Int.{pos}
use erp_iot.Base.Json.{Json, null, int, str, arr, obj, nil, cons, field, end}
use erp_iot.Base.Text.{text_of_int}
use erp_iot.Base.Time.{Time, days}
use erp_iot.Cabinet.BerthStatus.{
  compute, winner, alarm_list, truth, connection_signal, vessel_signal,
}
use erp_iot.Cabinet.Outcomes.{Outcome, Code, json}
use erp_iot.Cabinet.SessionPayload.{Result, ok, raise, int_of, attribute_error}
use erp_iot.Cabinet.BerthView.{Reads, outlets_for, berths_sharing}
use erp_iot.Cabinet.BerthView.Build.{
  OutletRow, View, Command, activate, build, alarm_types_of, loads_of, active_power_of, outlet_rows,
  signals_of, berth_row, berth_rows,
}
use erp_iot.Cabinet.BerthView.Controls.{IsSafe, build-IsSafe}
use erp_iot.Sessions.{FromIso, parse_utc}

abbrev now : Time
now = days 40

abbrev parser : FromIso
parser s = some (record { local = now; offset = none })

abbrev one_text : Json → String
one_text v = "1"

abbrev read : Json → Outcome
read v = record {
  code = Code.ok;
  endpoint_key = "x";
  content = some (json v);
  http_status = some 200;
  is_stale = false;
  synced_at = none;
  cabinet_detail = none;
}

abbrev health : Json
health = obj (
    field "1" (obj (field "last_heartbeat" (str "now") (field "opta_client_id" (str "A1") end)))
      end)

abbrev berth : Json
berth = obj (field "id" (int (pos 4)) (field "pedestal_id" (int (pos 1)) end))

abbrev socket : Json
socket = obj (field "socket_id" (int (pos 2)) (field "display_state" (str "idle") end))

abbrev reads_of : (enabled : Bool) → Json → Reads
reads_of enabled berths = record {
  health = read health;
  berths = read berths;
  status = [];
  load = (int (pos 1), read (obj (field "sockets" (arr (cons socket nil)) end))) ∷ [];
  breakers = [];
  alarms = none;
  sessions = none;
  config = record {
    device_type = some "retrofit";
    berth_outlets = (4, "Q1" ∷ "Q2" ∷ "V1" ∷ []) ∷ (5, "Q2" ∷ []) ∷ [];
  };
  controls_enabled = enabled;
  now = now;
  reserved = none;
}

abbrev one_berth : Json
one_berth = arr (cons berth nil)

abbrev summary : OutletRow → String × List ℕ × Option (List Command)
summary o = (o.name, o.shared_with_berths, o.controls)

abbrev outlets_in : Result View → Option (List (List (String × List ℕ × Option (List Command))))
outlets_in (ok v) = some (map (λ b. map summary b.outlets) v.berths)
outlets_in (raise e) = none

build_test :
    (outlets_in (build one_text parser (reads_of true one_berth))
      ≡ some ((("Q2", 5 ∷ [], some (activate ∷ [])) ∷ []) ∷ []))
    × (outlets_in (build one_text parser (reads_of false one_berth))
        ≡ some ((("Q2", 5 ∷ [], none) ∷ []) ∷ []))
    × (build one_text parser (reads_of true (arr (cons null nil))) ≡ raise attribute_error)
unfolding build alarm_types_of loads_of active_power_of outlet_rows signals_of berth_row berth_rows
    outlets_for berths_sharing int_of parse_utc compute winner alarm_list truth connection_signal
    vessel_signal text_of_int
build_test = (refl, refl, refl)

abbrev view_or : View → Result View → View
view_or v (ok u) = u
view_or v (raise e) = v

abbrev nothing : View
nothing = record { berths = []; is_stale = false; device_type = none }

abbrev built : View
built = view_or nothing (build one_text parser (reads_of true one_berth))

built-ok : build one_text parser (reads_of true one_berth) ≡ ok built
unfolding build alarm_types_of loads_of active_power_of outlet_rows signals_of berth_row berth_rows
    outlets_for berths_sharing int_of parse_utc compute winner alarm_list truth connection_signal
    vessel_signal text_of_int
built-ok = refl

build-IsSafe_example : All (IsSafe one_text parser (reads_of true one_berth)) built.berths
build-IsSafe_example = build-IsSafe one_text parser (reads_of true one_berth) built built-ok
