-- ===== src/Webhooks/Tables.antt =====
-- The rows that backend/app/routers/webhooks.py reads and writes: of `Cabinet` and `Marina` the columns
-- that it reads, and `AlarmLog`, `SessionLog`, `SyncLog` and `PedestalCache` of
-- backend/app/models/cache.py. A row that is added stands first.
use erp_iot.Base.{ℕ, String, Bool, Option, List}
use erp_iot.Base.Int.{ℤ}
use erp_iot.Base.Json.{Json, Dict}
use erp_iot.Base.Time.{Time}
use erp_iot.Sessions.{Db}

pub record Sender : Type 0 where
  pub id : ℕ
  pub marina_id : ℕ
  pub pedestal_pk : ℕ
  pub display_id : String
  pub webhook_key_enc : Option String
  pub webhook_hmac : Bool
  pub webhook_secret_enc : Option String

pub record Marina : Type 0 where
  pub id : ℕ
  pub webhook_secret : Option String

pub record AlarmLog : Type 0 where
  pub marina_id : ℕ
  pub pedestal_id : ℤ
  pub alarm_data : Json
  pub received_at : Time
  pub cabinet_id : Option ℕ
  pub cabinet_alarm_id : Option ℤ
  pub source : Option String

pub record SessionLog : Type 0 where
  pub marina_id : ℕ
  pub pedestal_id : ℤ
  pub session_data : Json
  pub recorded_at : Time

-- what a refusal records: the reason, the event, and the first keys
pub record Shape : Type 0 where
  pub why : String
  pub event : String
  pub keys : List String

pub record SyncLog : Type 0 where
  pub marina_id : ℕ
  pub sync_type : String
  pub status : String
  pub at : Time
  pub shape : Shape

pub record PedestalCache : Type 0 where
  pub marina_id : ℕ
  pub pedestal_id : Option ℤ
  pub last_seen_data : Option Json
  pub last_synced_at : Option Time
  pub is_stale : Bool
  pub last_temperature : Option ℤ
  pub last_temperature_alarm : Option Bool
  pub last_temperature_at : Option Time
  pub last_readings : Dict

-- `DecoyHit`: which decoy, and when
pub record DecoyHit : Type 0 where
  pub kind : String
  pub decoy : String
  pub observed_at : Time

pub record Store : Type 0 where
  pub senders : List Sender
  pub marinas : List Marina
  pub erp : Db
  pub alarm_log : List AlarmLog
  pub session_log : List SessionLog
  pub sync_log : List SyncLog
  pub pedestal_cache : List PedestalCache
  pub decoy_hits : List DecoyHit
