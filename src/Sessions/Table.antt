-- ===== src/Sessions/Table.antt =====
-- The rows that backend/app/services/session_sync.py reads and writes: `ErpSession` of
-- backend/app/models/metering.py, and of the other tables the columns that it compares.
-- Figures are whole numbers of the column's last decimal place.
use erp_iot.Base.{
  ℕ, ◌≡◌, Bool, false, Option, List, [], ◌∷◌, All, ◌==◌, String, first, map, if◌then◌else◌,
}
use erp_iot.Base.Int.{ℤ}
use erp_iot.Base.Time.{Time}
use erp_iot.Cabinet.SessionPayload.{Medium}

pub data SessionStatus : Type 0 where
  reserved active ended : SessionStatus

pub data BillingState : Type 0 where
  pending billed manual_review not_billable : BillingState

pub record ErpSession : Type 0 where
  pub id : ℕ
  pub erp_ref : String
  pub cabinet_id : ℕ
  pub cabinet_session_id : Option ℤ
  pub outlet_id : ℕ
  pub customer_id : Option ℕ
  pub session_type : Medium
  pub status : SessionStatus
  pub activated_at : Option Time
  pub ended_at : Option Time
  pub duration_min : Option ℤ
  pub energy_kwh : Option ℤ
  pub water_liters : Option ℤ
  pub meter_e_start : Option ℤ
  pub meter_e_end : Option ℤ
  pub meter_w_start : Option ℤ
  pub meter_w_end : Option ℤ
  pub consumption_source : Option String
  pub recompute_ok : Option Bool
  pub billing_state : BillingState
  pub created_at : Time
  pub reconciled_at : Option Time
  pub ack_sent_at : Option Time

-- `Cabinet`, `Outlet` and `Customer`
pub record Cabinet : Type 0 where
  pub id : ℕ
  pub display_id : String

pub record Outlet : Type 0 where
  pub id : ℕ
  pub outlet_name : String

pub record Customer : Type 0 where
  pub id : ℕ
  pub external_ref : Option String

-- `sessions` stands newest first
pub record Db : Type 0 where
  pub sessions : List ErpSession
  pub outlets : List Outlet
  pub customers : List Customer

-- `db.get(ErpSession, id)`
unfoldable pub row_at : ℕ → List ErpSession → Option ErpSession
row_at id rows = first (λ r. r.id == id) rows

-- the rows behind an UPDATE of one row by its primary key
unfoldable pub updated_row : ErpSession → List ErpSession → List ErpSession
updated_row s rows = map (λ r. if r.id == s.id then s else r) rows

-- The primary key is unique.
abbrev pub IsKeyed : List ErpSession → Type 0
IsKeyed [] = Unit {0}
IsKeyed (r ∷ rows) = All (λ s. (s.id == r.id) ≡ false) rows × IsKeyed rows
