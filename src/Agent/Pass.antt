-- ===== src/Agent/Pass.antt =====
-- backend/app/agent/run.py: one pass of the agent.
use erp_iot.Base.{
  ℕ, suc, ◌+◌, ◌-◌, String, Bool, Option, none, some, List, [], ◌∷◌, any, length, if◌then◌else◌,
  str_eq, first,
}
use erp_iot.Base.Time.{Time}
use erp_iot.Agent.Tables.{
  Mode, shadow, active, SecurityRuleSetting, SecurityAlarm, still_open, Store,
}
use erp_iot.Agent.{World, Finding, fingerprint}
use erp_iot.Agent.SignIns.{decoy_touch, login_spray}
use erp_iot.Agent.Commands.{socket_cmd_odd_hour, socket_cmd_new_ip, account_new_endpoint}
use erp_iot.Agent.Doors.{door_no_window}

-- `RULES`, in their order
pub data Rule : Type 0 where
  decoys sprays odd_hours new_addresses new_calls doors : Rule

abbrev pub rules : List Rule
rules = decoys ∷ sprays ∷ odd_hours ∷ new_addresses ∷ new_calls ∷ doors ∷ []

abbrev pub rule_id : Rule → String
rule_id decoys = "decoy_touch"
rule_id sprays = "login_spray"
rule_id odd_hours = "socket_cmd_odd_hour"
rule_id new_addresses = "socket_cmd_new_ip"
rule_id new_calls = "account_new_endpoint"
rule_id doors = "door_no_window"

abbrev pub fn : Rule → World → Store → (since now : Time) → List Finding
fn decoys = decoy_touch
fn sprays = login_spray
fn odd_hours = socket_cmd_odd_hour
fn new_addresses = socket_cmd_new_ip
fn new_calls = account_new_endpoint
fn doors = door_no_window

abbrev pub alarm_of : World → Time → Finding → SecurityAlarm
alarm_of w now f = record {
  rule_id = f.rule_id;
  fingerprint = fingerprint w f;
  severity = f.severity;
  title = f.title;
  why = f.why;
  evidence = f.evidence;
  window_from = f.window_from;
  window_to = f.window_to;
  created_at = now;
  state = still_open;
  simulated = f.simulated;
}

abbrev pub is_recorded : String → List SecurityAlarm → Bool
is_recorded print alarms = any (λ a. str_eq a.fingerprint print) alarms

-- the alarms, and how many were opened
abbrev pub Opened : Type 0
Opened = List SecurityAlarm × ℕ

-- `ON CONFLICT (fingerprint) DO NOTHING`
unfoldable pub insert : World → Time → Finding → Opened → Opened
insert w now f (alarms, opened) =
    if is_recorded (fingerprint w f) alarms
    then (alarms, opened)
    else (alarm_of w now f ∷ alarms, suc opened)

abbrev pub insert_all : World → Time → List Finding → Opened → Opened
insert_all w now [] r = r
insert_all w now (f ∷ fs) r = insert_all w now fs (insert w now f r)

abbrev mode_or_shadow : Option SecurityRuleSetting → Mode
mode_or_shadow none = shadow
mode_or_shadow (some s) = s.mode

-- `modes.get(rule_id, "shadow")`
abbrev pub mode_of : List SecurityRuleSetting → String → Mode
mode_of settings id = mode_or_shadow (first (λ s. str_eq s.rule_id id) settings)

-- what a rule in its mode does with its findings; the shadow only logs them
abbrev pub written : World → Time → Mode → List Finding → Opened → Opened
written w now active fs r = insert_all w now fs r
written w now shadow fs r = r

pub record RuleResult : Type 0 where
  pub rule : Rule
  pub mode : Mode
  pub found : ℕ
  pub opened : ℕ

abbrev pub apply_rules :
    World
    → Store
    → (since now : Time) → List Rule
    → List SecurityAlarm
    → List RuleResult × List SecurityAlarm
apply_rules w db since now [] alarms = ([], alarms)
apply_rules w db since now (rule ∷ rs) alarms =
    let mode = mode_of db.rule_settings (rule_id rule) in
    let fs = fn rule w db since now in
    let opened = written w now mode fs (alarms, 0) in
    let rest = apply_rules w db since now rs opened.0 in
    (record { rule = rule; mode = mode; found = length fs; opened = opened.1 } ∷ rest.0, rest.1)

abbrev pub total_opened : List RuleResult → ℕ
total_opened [] = 0
total_opened (r ∷ rs) = r.opened + total_opened rs

abbrev recorded : Time → Store → List RuleResult × List SecurityAlarm → List RuleResult × Store
recorded now db (out, alarms) = (
  out,
  record db {
    security_alarms = alarms;
    passes =
        record { finished_at = now; rules = length out; opened = total_opened out } ∷ db.passes;
  },
)

unfoldable pub run_once : World → (window : ℕ) → (now : Time) → Store → List RuleResult × Store
run_once w window now db =
    recorded now db (apply_rules w db (now - window) now rules db.security_alarms)

-- passes one after another, each at its time
abbrev pub passes : World → (window : ℕ) → List Time → Store → Store
passes w window [] db = db
passes w window (now ∷ times) db = passes w window times (run_once w window now db).1
