-- ===== src/Accounts/Table.antt =====
-- The rows of backend/app/models/user.py that the accounts read and write, and the settings of
-- backend/app/config.py that they depend on.
use erp_iot.Base.{ℕ, String, Bool, Option}
use erp_iot.Base.Time.{Time}

pub data Role : Type 0 where
  admin marina_manager : Role

pub record User : Type 0 where
  pub id : ℕ
  pub email : String
  pub password_hash : Option String
  pub role : Role
  pub is_active : Bool
  pub last_login : Option Time
  pub totp_secret : Option String
  pub totp_confirmed_at : Option Time
  pub totp_last_step : Option ℕ
  pub failed_count : ℕ
  pub locked_until : Option Time

pub record BackupCode : Type 0 where
  pub user_id : ℕ
  pub code_hash : String
  pub used_at : Option Time

pub record SetupToken : Type 0 where
  pub token_hash : String
  pub user_id : ℕ
  pub created_at : Time
  pub expires_at : Time
  pub used_at : Option Time

pub record AuditRow : Type 0 where
  pub user_id : Option ℕ
  pub event : String
  pub detail : Option String
  pub created_at : Time

pub record Settings : Type 0 where
  pub lockout_threshold : ℕ
  pub lockout_minutes : ℕ
