-- ===== src/Collector/Tables.antt =====
-- The rows that backend/app/services/collector.py writes: `OutletMeterState` and
-- `ConsumptionInterval` of backend/app/models/metering.py, `AlarmLog` of backend/app/models/cache.py.
-- Registers are ten-thousandths of a kWh.
use erp_iot.Base.{ℕ, Bool, Option, List, String}
use erp_iot.Base.Int.{ℤ}
use erp_iot.Base.Json.{Json}
use erp_iot.Base.Time.{Time}
use erp_iot.Sessions.Table.{ErpSession}

pub record MeterState : Type 0 where
  pub outlet_id : ℕ
  pub energy_kwh : Option ℤ
  pub read_at : Time
  pub last_interval_id : Option ℕ

pub record Interval : Type 0 where
  pub id : ℕ
  pub outlet_id : ℕ
  pub session_id : Option ℕ
  pub standalone : Bool
  pub from_at : Time
  pub to_at : Time
  pub energy_kwh : Option ℤ
  pub water_liters : Option ℤ
  pub meter_from : Option ℤ
  pub meter_to : Option ℤ
  pub source : String

-- `intervals` stands newest first; `next_id` is the sequence of its keys
pub record Meters : Type 0 where
  pub states : List MeterState
  pub intervals : List Interval
  pub next_id : ℕ
  pub sessions : List ErpSession

-- the columns of a cabinet that the collector reads
pub record PolledCabinet : Type 0 where
  pub id : ℕ
  pub pedestal_pk : ℕ
  pub smart_mode : Option Bool
  pub is_simulated : Bool

pub record PolledOutlet : Type 0 where
  pub id : ℕ
  pub outlet_name : String

pub record AlarmRow : Type 0 where
  pub cabinet_id : ℕ
  pub cabinet_alarm_id : ℤ
  pub alarm_data : Json
  pub received_at : Time
