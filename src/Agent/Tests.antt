-- ===== src/Agent/Tests.antt =====
-- backend/app/agent: runs on small tables, and the witnesses of the theorems.
use erp_iot.Base.{
  ℕ, ◌+◌, ◌/◌, String, ◌≡◌, refl, true, false, none, some, List, [], ◌∷◌, All, any, map, arith,
}
use erp_iot.Base.Json.{str, obj, field, end}
use erp_iot.Base.Int.{pos}
use erp_iot.Base.Text.{text_of_int}
use erp_iot.Base.Time.{Time, days, hours}
use erp_iot.Agent.Tables.{
  DecoyHit, AuthAudit, CommandAudit, Cabinet, PedestalCache, ServiceWindow, active,
  SecurityRuleSetting, Store,
}
use erp_iot.Agent.{World, Finding, as_dict, in_window}
use erp_iot.Agent.SignIns.{decoy_touch, login_spray, decoys_in}
use erp_iot.Agent.Commands.{socket_cmd_odd_hour, socket_cmd_new_ip, account_new_endpoint}
use erp_iot.Agent.Doors.{door_no_window, snapshot_cabinet, window_covers}
use erp_iot.Agent.Pass.{run_once, passes, total_opened}
use erp_iot.Agent.Once.{IsDistinct, passes-IsDistinct, run_once-again}
use erp_iot.Agent.Opened.{Grew, IsOwn, run_once-Grew}
use erp_iot.Agent.Reported.{has_row, decoy_touch-reported}
use erp_iot.Agent.Announced.{door_no_window-announced}

abbrev stamp : Time → String
stamp at = text_of_int (pos (at / hours 1))

abbrev world : World
world = record {
  sha256_hex = λ s. s;
  iso = stamp;
  iso_date = λ at. text_of_int (pos (at / days 1));
  lower = λ s. s;
  upper = λ s. s;
  repr = λ s. s;
  loads = λ s. none;
  dumps = λ v. "";
  zone = λ s. none;
}

abbrev touch : ℕ → Time → DecoyHit
touch id at = record {
  id = id;
  kind = "endpoint";
  decoy = "/wp-admin";
  method = some "GET";
  path = none;
  source_ip = some "10.0.0.9";
  user_agent = none;
  observed_at = at;
}

abbrev failed : ℕ → String → AuthAudit
failed id email = record {
  id = id;
  event = "login_failed";
  email_tried = some email;
  detail = none;
  source_ip = some "10.0.0.9";
  created_at = days 40;
}

abbrev command : ℕ → String → String → Time → CommandAudit
command id key ip at = record {
  id = id;
  cabinet_id = 3;
  endpoint_key = key;
  action = "on";
  actor_type = "operator";
  actor_ref = some "ana";
  reason = none;
  source_ip = some ip;
  created_at = at;
}

abbrev cabinet : Cabinet
cabinet = record {
  id = 3;
  marina_id = 1;
  pedestal_pk = 7;
  display_id = "A1";
  base_url = "https://a/";
  is_simulated = false;
}

abbrev key : String
key = "pedestals.status_ext:/api/ext/pedestals/7/status@https://a"

abbrev snapshot : PedestalCache
snapshot = record {
  id = 5;
  marina_id = 1;
  cache_key = some key;
  last_seen_data = obj (field "door_state" (str "open") end);
  last_synced_at = some (days 40);
}

abbrev setting : String → SecurityRuleSetting
setting id = record { rule_id = id; mode = active }

abbrev tables : List ServiceWindow → Store
tables windows = record {
  decoy_hits = touch 1 (days 40) ∷ touch 2 (days 40 + hours 1) ∷ touch 3 (days 38) ∷ [];
  auth_audit = failed 1 "a" ∷ failed 2 "b" ∷ failed 3 "c" ∷ failed 4 "a" ∷ [];
  command_audit =
      command 1 "controls.socket_cmd" "10.0.0.1" (days 39 + hours 8)
      ∷ command 2 "controls.socket_cmd" "10.0.0.2" (days 40 + hours 2)
      ∷ command 3 "controls.water_cmd" "10.0.0.1" (days 40 + hours 9)
      ∷ [];
  marinas = record { id = 1; timezone = "" } ∷ [];
  cabinets = cabinet ∷ [];
  alarm_log = [];
  pedestal_cache = snapshot ∷ [];
  service_windows = windows;
  rule_settings = setting "decoy_touch" ∷ setting "door_no_window" ∷ [];
  security_alarms = [];
  passes = [];
}

abbrev covering : ServiceWindow
covering = record { cabinet_id = 3; from_at = days 1; to_at = days 100 }

abbrev since : Time
since = days 40

abbrev now : Time
now = days 41

abbrev ids : List Finding → List String
ids fs = map (λ f. f.case_key) fs

decoy_touch_test :
    ids (decoy_touch world (tables []) since now) ≡ "endpoint|/wp-admin|10.0.0.9|40" ∷ []
unfolding decoy_touch text_of_int
decoy_touch_test = refl

login_spray_test : ids (login_spray world (tables []) since now) ≡ "10.0.0.9|960" ∷ []
unfolding login_spray text_of_int
login_spray_test = refl

socket_cmd_odd_hour_test :
    ids (socket_cmd_odd_hour world (tables []) since now) ≡ "command_audit|2" ∷ []
unfolding socket_cmd_odd_hour text_of_int
socket_cmd_odd_hour_test = refl

socket_cmd_new_ip_test :
    ids (socket_cmd_new_ip world (tables []) since now) ≡ "command_audit|2" ∷ []
unfolding socket_cmd_new_ip text_of_int
socket_cmd_new_ip_test = refl

account_new_endpoint_test :
    ids (account_new_endpoint world (tables []) since now) ≡ "ana|controls.water_cmd|40" ∷ []
unfolding account_new_endpoint text_of_int
account_new_endpoint_test = refl

door_no_window_test :
    (ids (door_no_window world (tables []) since now) ≡ "status_ext|3|960" ∷ [])
    × (door_no_window world (tables (covering ∷ [])) since now ≡ [])
unfolding door_no_window snapshot_cabinet text_of_int as_dict
door_no_window_test = (refl, refl)

passes-IsDistinct_example :
    IsDistinct (passes world (days 1) (now ∷ days 42 ∷ []) (tables [])).security_alarms
passes-IsDistinct_example = passes-IsDistinct world (days 1) (now ∷ days 42 ∷ []) (tables []) tt

run_once-again_example :
    let once = run_once world (days 1) now (tables []) in
    let twice = run_once world (days 1) now once.1 in
    (twice.1.security_alarms ≡ once.1.security_alarms) × (total_opened twice.0 ≡ 0)
run_once-again_example = run_once-again world (days 1) now (tables [])

run_once-Grew_example :
    let r = run_once world (days 1) now (tables []) in
    Grew (IsOwn (tables []).rule_settings now) ([], 0) (r.1.security_alarms, total_opened r.0)
run_once-Grew_example = run_once-Grew world (days 1) now (tables [])

decoy_touch-reported_example :
    All
      (λ h. any (has_row h.id) (decoy_touch world (tables []) since now) ≡ true)
      (decoys_in since now (tables []))
decoy_touch-reported_example = decoy_touch-reported world (tables []) since now

covering-covers :
    (at : Time) → in_window since now at ≡ true → window_covers (tables (covering ∷ [])) 3 at ≡ true
covering-covers at h = ground (arith, h)

door_no_window-announced_example : door_no_window world (tables (covering ∷ [])) since now ≡ []
door_no_window-announced_example =
    door_no_window-announced world (tables (covering ∷ [])) since now (covering-covers, tt)
