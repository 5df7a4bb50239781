-- ===== src/Agent/Tables.antt =====
-- The rows that the security agent reads, of the columns that its queries name, and the two tables it
-- inserts into (backend/app/models/security.py). A list stands in the order of the keys, the alarms
-- newest first.
use erp_iot.Base.{ℕ, String, Bool, Option, List}
use erp_iot.Base.Json.{Json, Dict}
use erp_iot.Base.Time.{Time}

pub record DecoyHit : Type 0 where
  pub id : ℕ
  pub kind : String
  pub decoy : String
  pub method : Option String
  pub path : Option String
  pub source_ip : Option String
  pub user_agent : Option String
  pub observed_at : Time

-- `auth_audit`
pub record AuthAudit : Type 0 where
  pub id : ℕ
  pub event : String
  pub email_tried : Option String
  pub detail : Option String
  pub source_ip : Option String
  pub created_at : Time

pub record CommandAudit : Type 0 where
  pub id : ℕ
  pub cabinet_id : ℕ
  pub endpoint_key : String
  pub action : String
  pub actor_type : String
  pub actor_ref : Option String
  pub reason : Option String
  pub source_ip : Option String
  pub created_at : Time

pub record Marina : Type 0 where
  pub id : ℕ
  pub timezone : String

pub record Cabinet : Type 0 where
  pub id : ℕ
  pub marina_id : ℕ
  pub pedestal_pk : ℕ
  pub display_id : String
  pub base_url : String
  pub is_simulated : Bool

pub record AlarmLog : Type 0 where
  pub id : ℕ
  pub cabinet_id : Option ℕ
  pub alarm_data : Json
  pub received_at : Time

pub record PedestalCache : Type 0 where
  pub id : ℕ
  pub marina_id : ℕ
  pub cache_key : Option String
  pub last_seen_data : Json
  pub last_synced_at : Option Time

pub record ServiceWindow : Type 0 where
  pub cabinet_id : ℕ
  pub from_at : Time
  pub to_at : Time

pub data Mode : Type 0 where
  shadow active : Mode

pub record SecurityRuleSetting : Type 0 where
  pub rule_id : String
  pub mode : Mode

pub data Severity : Type 0 where
  info warning critical : Severity

-- one entry of the list `evidence`
pub record Evidence : Type 0 where
  pub source : String
  pub row_ids : List ℕ
  pub fields : Dict
  pub observed_at : Json

pub data AlarmState : Type 0 where
  still_open acknowledged closed : AlarmState

pub record SecurityAlarm : Type 0 where
  pub rule_id : String
  pub fingerprint : String
  pub severity : Severity
  pub title : String
  pub why : String
  pub evidence : List Evidence
  pub window_from : Time
  pub window_to : Time
  pub created_at : Time
  pub state : AlarmState
  pub simulated : Bool

pub record SecurityAgentPass : Type 0 where
  pub finished_at : Time
  pub rules : ℕ
  pub opened : ℕ

pub record Store : Type 0 where
  pub decoy_hits : List DecoyHit
  pub auth_audit : List AuthAudit
  pub command_audit : List CommandAudit
  pub marinas : List Marina
  pub cabinets : List Cabinet
  pub alarm_log : List AlarmLog
  pub pedestal_cache : List PedestalCache
  pub service_windows : List ServiceWindow
  pub rule_settings : List SecurityRuleSetting
  pub security_alarms : List SecurityAlarm
  pub passes : List SecurityAgentPass
