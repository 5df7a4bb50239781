-- ===== src/Collector.antt =====
-- backend/app/services/collector.py: register readings into intervals, alarms into the log, and when
-- a task is due. The loop, the threads and the polled calls themselves are left out.
use erp_iot.Base.{
  ℕ, suc, ◌+◌, ◌*◌, ◌/◌, ◌%◌, ◌<>◌, String, Bool, true, false, not, ◌&&◌, ◌||◌, Option, none, some,
  List, [], ◌∷◌, first, map, any, is_some, ltb, leb, ◌==◌, if◌then◌else◌, str_eq,
}
use erp_iot.Base.Int.{ℤ, pos, negsuc, ◌-ℤ◌, ltb_ℤ, eqb_ℤ}
use erp_iot.Base.Json.{
  Json, null, bool, int, float, str, arr, obj, Items, nil, cons, Fields, entries, get_json, scale,
}
use erp_iot.Base.Text.{text_of_int}
use erp_iot.Base.Time.{Time, seconds, hours, days}
use erp_iot.Sessions.Table.{ErpSession, SessionStatus, reserved, active, ended}
pub mod Tables
pub mod Totals
pub mod Runs
pub mod Attribution
pub mod Schedule
mod Tests
pub use Tables.*

-- `db.get(OutletMeterState, id)`
abbrev pub state_of : ℕ → List MeterState → Option MeterState
state_of outlet states = first (λ s. s.outlet_id == outlet) states

abbrev pub put_state : MeterState → List MeterState → List MeterState
put_state s [] = s ∷ []
put_state s (t ∷ states) = if t.outlet_id == s.outlet_id then s ∷ states else t ∷ put_state s states

abbrev pub is_active : SessionStatus → Bool
is_active active = true
is_active _ = false

abbrev pub id_of : Option ErpSession → Option ℕ
id_of none = none
id_of (some s) = some s.id

-- the active session of an outlet, the newest first
unfoldable pub active_session : List ErpSession → ℕ → Option ℕ
active_session sessions outlet =
    id_of (first (λ s. s.outlet_id == outlet && is_active s.status) sessions)

abbrev pub is_off : Option Bool → Bool
is_off (some false) = true
is_off _ = false

-- only in Smart Mode ON
abbrev pub attributed : Option Bool → Option ℕ → Option ℕ
attributed (some true) session = session
attributed _ session = none

-- `db.get(ConsumptionInterval, id)`
abbrev pub interval_at : Option ℕ → List Interval → Option Interval
interval_at none rows = none
interval_at (some id) rows = first (λ r. r.id == id) rows

abbrev pub same_id : Option ℕ → Option ℕ → Bool
same_id none none = true
same_id (some a) (some b) = a == b
same_id _ _ = false

abbrev pub is_zero_kwh : Option ℤ → Bool
is_zero_kwh none = false
is_zero_kwh (some e) = eqb_ℤ e (pos 0)

abbrev pub same_flag : Bool → Bool → Bool
same_flag true b = b
same_flag false b = not b

-- the idle interval that a zero difference extends
abbrev pub is_extendable : Option ℕ → Bool → Time → Interval → Bool
is_extendable session standalone read_at r =
    is_zero_kwh r.energy_kwh
    && same_id r.session_id session
    && same_flag r.standalone standalone
    && r.to_at == read_at

abbrev pub extendable_id : Option ℕ → Bool → Time → Option Interval → Option ℕ
extendable_id session standalone read_at none = none
extendable_id session standalone read_at (some r) =
    if is_extendable session standalone read_at r then some r.id else none

abbrev pub extended_to : ℕ → Time → ℤ → List Interval → List Interval
extended_to id at register rows =
    map (λ r. if r.id == id then record r { to_at = at; meter_to = some register } else r) rows

-- the words that `record_reading` returns
pub data Reading : Type 0 where
  seeded not_newer reset extended interval : Reading

abbrev pub with_state : MeterState → Meters → Meters
with_state s m = record m { states = put_state s m.states }

-- a reading that is no lower than the last
abbrev pub advance :
    PolledCabinet
    → ℕ
    → ℤ
    → Time
    → MeterState
    → (prev delta : ℤ) → Option ℕ
    → Option ℕ
    → Meters
    → Reading × Meters
advance cab outlet register at st prev delta session none m = (
  interval,
  record (with_state
      (record st { energy_kwh = some register; read_at = at; last_interval_id = some m.next_id })
      m) {
        next_id = m.next_id + 1;
        intervals =
            record {
              id = m.next_id;
              outlet_id = outlet;
              session_id = session;
              standalone = is_off cab.smart_mode;
              from_at = st.read_at;
              to_at = at;
              energy_kwh = some delta;
              water_liters = none;
              meter_from = some prev;
              meter_to = some register;
              source = "register";
            }
            ∷ m.intervals;
      },
)
advance cab outlet register at st prev delta session (some id) m = (
  extended,
  record (with_state (record st { energy_kwh = some register; read_at = at }) m) {
    intervals = extended_to id at register m.intervals;
  },
)

abbrev pub restarted : ℤ → Time → MeterState → Meters → Reading × Meters
restarted register at st m = (
  reset,
  with_state (record st { energy_kwh = some register; read_at = at; last_interval_id = none }) m,
)

abbrev pub read_against :
    PolledCabinet → ℕ → ℤ → Time → MeterState → Option ℤ → Meters → Reading × Meters
read_against cab outlet register at st none m = restarted register at st m
read_against cab outlet register at st (some prev) m =
    let delta = register -ℤ prev in
    let session = attributed cab.smart_mode (active_session m.sessions outlet) in
    let idle =
      extendable_id session (is_off cab.smart_mode) st.read_at
        (interval_at st.last_interval_id m.intervals) in
    if ltb_ℤ register prev
    then restarted register at st m
    else advance cab outlet register at st prev delta session
        (if eqb_ℤ delta (pos 0) then idle else none) m

abbrev pub read_state : PolledCabinet → ℕ → ℤ → Time → Option MeterState → Meters → Reading × Meters
read_state cab outlet register at none m = (
  seeded,
  with_state
      (record {
        outlet_id = outlet;
        energy_kwh = some register;
        read_at = at;
        last_interval_id = none;
      })
      m,
)
read_state cab outlet register at (some st) m =
    if leb at st.read_at
    then (not_newer, m)
    else read_against cab outlet register at st st.energy_kwh m

-- `record_reading`
unfoldable pub record_reading : PolledCabinet → ℕ → ℤ → Time → Meters → Reading × Meters
record_reading cab outlet register at m =
    read_state cab outlet register at (state_of outlet m.states) m
