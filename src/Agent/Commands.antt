-- ===== src/Agent/Commands.antt =====
-- backend/app/agent/rules.py: commands of an operator outside working hours or from a new address, and
-- accounts that call an endpoint for the first time.
use erp_iot.Base.{
  ℕ, String, Bool, true, false, not, ◌&&◌, ◌||◌, ◌<>◌, Option, none, some, List, [], ◌∷◌, map, any,
  length, ltb, leb, ◌==◌, ◌-◌, ◌/◌, if◌then◌else◌, str_eq, select, first,
}
use erp_iot.Base.Int.{pos}
use erp_iot.Base.Json.{int, str}
use erp_iot.Base.Text.{two_digits, or_blank}
use erp_iot.Base.Time.{Time, days}
use erp_iot.Agent.Tables.{CommandAudit, Cabinet, Marina, warning, info, Store}
use erp_iot.Agent.{
  World, Finding, ev, quote_text, json_of, texts, number, sorted_set, local_hour, in_window,
  collect, baseline, work_from_hour, work_to_hour,
}
use erp_iot.Agent.SignIns.{same_text}

-- an audit row with its cabinet and its marina, as the query joins them
pub record OutletCommand : Type 0 where
  pub row : CommandAudit
  pub cabinet : Cabinet
  pub marina : Marina

abbrev pub is_outlet_cmd : String → Bool
is_outlet_cmd key = str_eq key "controls.socket_cmd" || str_eq key "controls.water_cmd"

abbrev pub cabinet_of : Store → ℕ → Option Cabinet
cabinet_of db id = first (λ c. c.id == id) db.cabinets

abbrev pub marina_of : Store → Cabinet → Option Marina
marina_of db c = first (λ m. m.id == c.marina_id) db.marinas

abbrev with_marina : CommandAudit → Cabinet → Option Marina → Option OutletCommand
with_marina r c none = none
with_marina r c (some m) = some (record { row = r; cabinet = c; marina = m })

abbrev with_cabinet : Store → CommandAudit → Option Cabinet → Option OutletCommand
with_cabinet db r none = none
with_cabinet db r (some c) = with_marina r c (marina_of db c)

abbrev pub outlet_command : Store → (since now : Time) → CommandAudit → Option OutletCommand
outlet_command db since now r =
    if str_eq r.actor_type "operator"
      && is_outlet_cmd r.endpoint_key
      && in_window since now r.created_at
    then with_cabinet db r (cabinet_of db r.cabinet_id)
    else none

abbrev pub outlet_cmds_in_window : Store → (since now : Time) → List OutletCommand
outlet_cmds_in_window db since now = collect (outlet_command db since now) db.command_audit

abbrev pub is_working_hour : ℕ → Bool
is_working_hour hour = leb work_from_hour hour && ltb hour work_to_hour

abbrev command_key : CommandAudit → String
command_key r = "command_audit|" <> number r.id

abbrev pub odd_hour_finding : World → OutletCommand → (hour : ℕ) → (zone : String) → Finding
odd_hour_finding w c hour zone =
    let r = c.row in
    record {
      rule_id = "socket_cmd_odd_hour";
      case_key = command_key r;
      severity = warning;
      title = c.cabinet.display_id <> ": outlet command outside working hours";
      why =
          r.endpoint_key
          <> " '"
          <> quote_text r.action
          <> "' at "
          <> two_digits hour
          <> ":00 local time ("
          <> zone
          <> "); working hours are 06–22 h.";
      evidence =
          ev w "command_audit" (r.id ∷ [])
            (("endpoint_key", str r.endpoint_key)
              ∷ ("action", str r.action)
              ∷ ("actor_ref", json_of r.actor_ref)
              ∷ ("reason", json_of r.reason)
              ∷ ("source_ip", json_of r.source_ip)
              ∷ ("local_hour", int (pos hour))
              ∷ ("zone", str zone)
              ∷ [])
            (some r.created_at)
          ∷ [];
      window_from = r.created_at;
      window_to = r.created_at;
      simulated = c.cabinet.is_simulated;
    }

abbrev pub odd_hour_of : World → OutletCommand → Option Finding
odd_hour_of w c =
    let used = local_hour w c.row.created_at c.marina.timezone in
    if is_working_hour used.0 then none else some (odd_hour_finding w c used.0 used.1)

unfoldable pub socket_cmd_odd_hour : World → Store → (since now : Time) → List Finding
socket_cmd_odd_hour w db since now = collect (odd_hour_of w) (outlet_cmds_in_window db since now)

-- `COALESCE(c.is_simulated, :no)` behind the LEFT JOIN
abbrev pub simulated_of : Option Cabinet → Bool
simulated_of none = false
simulated_of (some c) = c.is_simulated

abbrev pub same_bool : Bool → Bool → Bool
same_bool true b = b
same_bool false b = not b

-- the commands of an account in the 30 days before, all of real cabinets or all of simulated ones
abbrev pub is_history :
    Store → (actor : String) → (before : Time) → (simulated : Bool) → CommandAudit → Bool
is_history db actor before simulated h =
    same_text h.actor_ref (some actor)
    && leb (before - baseline) h.created_at
    && ltb h.created_at before
    && same_bool (simulated_of (cabinet_of db h.cabinet_id)) simulated

abbrev pub history :
    Store → (actor : String) → (before : Time) → (simulated : Bool) → List CommandAudit
history db actor before simulated = select (is_history db actor before simulated) db.command_audit

abbrev pub texts_in : List (Option String) → List String
texts_in [] = []
texts_in (none ∷ os) = texts_in os
texts_in (some s ∷ os) = if str_eq s "" then texts_in os else s ∷ texts_in os

-- `sorted({h["source_ip"] for h in hist if h["source_ip"]})`
abbrev pub known_addresses : List CommandAudit → List String
known_addresses hist = sorted_set (texts_in (map (λ h. h.source_ip) hist))

abbrev audit_id : CommandAudit → ℕ
audit_id r = r.id

abbrev pub new_ip_finding : World → OutletCommand → List CommandAudit → Finding
new_ip_finding w c hist =
    let r = c.row in
    let known = known_addresses hist in
    record {
      rule_id = "socket_cmd_new_ip";
      case_key = command_key r;
      severity = warning;
      title = c.cabinet.display_id <> ": outlet command from a new address";
      why =
          "In the last 30 days the account sent commands from "
          <> number (length known)
          <> " addresses; this is not one of them.";
      evidence =
          ev w "command_audit" (r.id ∷ [])
            (("endpoint_key", str r.endpoint_key)
              ∷ ("action", str r.action)
              ∷ ("actor_ref", json_of r.actor_ref)
              ∷ ("source_ip", json_of r.source_ip)
              ∷ ("known_ips", texts known)
              ∷ [])
            (some r.created_at)
          ∷ ev w "command_audit" (map audit_id hist) (("baseline_days", int (pos 30)) ∷ []) none
          ∷ [];
      window_from = r.created_at;
      window_to = r.created_at;
      simulated = c.cabinet.is_simulated;
    }

abbrev pub is_empty {ℓ} : {A : Type ℓ} → List A → Bool
is_empty [] = true
is_empty (x ∷ xs) = false

-- no baseline yet, or a known address
abbrev pub is_known_address : (source_ip : Option String) → List CommandAudit → Bool
is_known_address ip hist = is_empty hist || any (λ h. same_text h.source_ip ip) hist

abbrev pub new_ip_of : World → Store → OutletCommand → Option Finding
new_ip_of w db c =
    let hist = history db (or_blank c.row.actor_ref) c.row.created_at c.cabinet.is_simulated in
    if str_eq (or_blank c.row.actor_ref) "" || str_eq (or_blank c.row.source_ip) ""
    then none
    else if is_known_address c.row.source_ip hist
    then none
    else some (new_ip_finding w c hist)

unfoldable pub socket_cmd_new_ip : World → Store → (since now : Time) → List Finding
socket_cmd_new_ip w db since now = collect (new_ip_of w db) (outlet_cmds_in_window db since now)

-- the account, the endpoint, the date and the kind of cabinet of a case
pub record EndpointCase : Type 0 where
  pub actor_ref : String
  pub endpoint_key : String
  pub day : ℕ
  pub simulated : Bool

abbrev pub same_case : EndpointCase → EndpointCase → Bool
same_case a b =
    str_eq a.actor_ref b.actor_ref
    && str_eq a.endpoint_key b.endpoint_key
    && a.day == b.day
    && same_bool a.simulated b.simulated

abbrev pub endpoint_case : Store → (actor : String) → CommandAudit → EndpointCase
endpoint_case db actor r = record {
  actor_ref = actor;
  endpoint_key = r.endpoint_key;
  day = r.created_at / days 1;
  simulated = simulated_of (cabinet_of db r.cabinet_id);
}

abbrev endpoints_of : List CommandAudit → List String
endpoints_of hist = sorted_set (map (λ h. h.endpoint_key) hist)

abbrev pub new_endpoint_finding : World → EndpointCase → CommandAudit → List CommandAudit → Finding
new_endpoint_finding w k r hist =
    let known = endpoints_of hist in
    record {
      rule_id = "account_new_endpoint";
      case_key =
          k.actor_ref
          <> "|"
          <> r.endpoint_key
          <> "|"
          <> w.iso_date r.created_at
          <> (if k.simulated then "|sim" else "");
      severity = info;
      title = "Account calls " <> r.endpoint_key <> " for the first time";
      why =
          "In the last 30 days the account called "
          <> number (length known)
          <> " other kinds of command, never this one.";
      evidence =
          ev w "command_audit" (r.id ∷ [])
            (("endpoint_key", str r.endpoint_key)
              ∷ ("actor_ref", str k.actor_ref)
              ∷ ("source_ip", json_of r.source_ip)
              ∷ ("known_endpoints", texts known)
              ∷ [])
            (some r.created_at)
          ∷ [];
      window_from = r.created_at;
      window_to = r.created_at;
      simulated = k.simulated;
    }

-- a case that was seen in this pass, no history, or an endpoint that was called before
abbrev pub is_usual : List EndpointCase → EndpointCase → List CommandAudit → Bool
is_usual seen k hist =
    any (λ j. same_case j k) seen
    || is_empty hist
    || any (λ h. str_eq h.endpoint_key k.endpoint_key) hist

abbrev pub new_endpoints :
    World → Store → List EndpointCase → List (String × CommandAudit) → List Finding
new_endpoints w db seen [] = []
new_endpoints w db seen ((actor, r) ∷ rows) =
    let k = endpoint_case db actor r in
    let hist = history db actor r.created_at k.simulated in
    let skipped = new_endpoints w db seen rows in
    let noted = new_endpoints w db (k ∷ seen) rows in
    if is_usual seen k hist then skipped else new_endpoint_finding w k r hist ∷ noted

-- a command in the window that has an account
abbrev account_command : (since now : Time) → CommandAudit → Option (String × CommandAudit)
account_command since now r = elim r.actor_ref [
  | none ↦ none
  | some actor ↦ if in_window since now r.created_at then some (actor, r) else none
]

unfoldable pub account_new_endpoint : World → Store → (since now : Time) → List Finding
account_new_endpoint w db since now =
    new_endpoints w db [] (collect (account_command since now) db.command_audit)
