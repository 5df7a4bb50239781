-- ===== src/Cabinet/Client/State.antt =====
-- The state of a `CabinetClient`, the rows that its calls write, and the outside world: the clock,
-- the answers of the cabinet, the JWT library and `json.dumps`, indexed by the attempt.
use erp_iot.Base.{ℕ, String, Bool, Option, List}
use erp_iot.Base.Json.{Json}
use erp_iot.Base.Time.{Time}

-- an HTTP answer: `parsed` is its body as JSON where it is JSON
pub record Reply : Type 0 where
  pub status : ℕ
  pub says_json : Bool
  pub parsed : Option Json
  pub body : String
  pub raw : List ℕ

-- `failed` is a timeout or a transport error, with its text
pub data Exchange : Type 0 where
  failed : String → Exchange
  answered : Reply → Exchange

pub record World : Type 0 where
  pub clock : ℕ → Time
  pub token_reply : ℕ → Exchange
  pub reply : ℕ → Exchange
  pub jwt_exp : Json → Option Time
  pub dumps : Json → String

pub data Status : Type 0 where
  success error stale : Status

pub record LogRow : Type 0 where
  pub sync_type : String
  pub status : Status
  pub message : Option String

pub record CacheRow : Type 0 where
  pub cache_key : String
  pub last_seen : Json
  pub last_synced_at : Time

-- The client and what it writes for its marina. `step` counts the attempts made, `requests` the
-- requests sent to the cabinet, those for a service token included, `waits` the seconds slept, the
-- last first.
pub record Client : Type 0 where
  pub base_url : String
  pub erp_api_key : Option String
  pub token : Option Json
  pub token_expires : Option Time
  pub not_enabled_until : List (String × Time)
  pub last_status : List (String × Status)
  pub cache : List CacheRow
  pub sync_log : List LogRow
  pub step : ℕ
  pub requests : ℕ
  pub waits : List ℕ
