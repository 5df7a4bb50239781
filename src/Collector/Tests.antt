-- ===== src/Collector/Tests.antt =====
-- Readings, alarms and due times at fixed values, and the theorems at them.
use erp_iot.Base.{◌+◌, ◌≡◌, refl, true, false, none, some, List, [], ◌∷◌, arith}
use erp_iot.Base.Int.{pos, ◌+ℤ◌, ◌-ℤ◌}
use erp_iot.Base.Json.{Json, int, str, obj, field, end, Items, nil, cons}
use erp_iot.Base.Time.{hours, days}
use erp_iot.Collector.{Meters, PolledCabinet, AlarmRow, reset, record_reading, active_session}
use erp_iot.Collector.Totals.{total}
use erp_iot.Collector.Runs.{Sample, read_all, read_all-total}
use erp_iot.Collector.Attribution.{IsSeparate, record_reading-IsSeparate}
use erp_iot.Sessions.Table.{ErpSession, active}
use erp_iot.Sessions.Samples.{waiting}
use erp_iot.Collector.Schedule.{is_due, nightly_due, store_alarms, store_alarm}
use erp_iot.Collector.Schedule.Alarms.{store_alarms-again}

abbrev cab_on : PolledCabinet
cab_on = record { id = 1; pedestal_pk = 9; smart_mode = some true; is_simulated = false }

abbrev cab_off : PolledCabinet
cab_off = record cab_on { smart_mode = some false }

abbrev empty : Meters
empty = record { states = []; intervals = []; next_id = 1; sessions = [] }

-- a session that runs on the outlet
abbrev running : ErpSession
running = record waiting { id = 8; outlet_id = 5; status = active }

-- 1.2 kWh in Smart Mode and in a session, then an idle stretch and 0.3 kWh outside both
abbrev later_samples : List Sample
later_samples =
    (cab_on, running ∷ [], pos 112000, hours 101)
    ∷ (cab_off, [], pos 112000, hours 102)
    ∷ (cab_off, [], pos 112000, hours 103)
    ∷ (cab_off, [], pos 115000, hours 104)
    ∷ []

three_intervals :
    (total 5 (read_all 5 empty ((cab_on, [], pos 100000, hours 100) ∷ later_samples)).intervals
      ≡ pos 15000)
    × ((read_all 5 empty ((cab_on, [], pos 100000, hours 100) ∷ later_samples)).next_id ≡ 4)
unfolding read_all record_reading active_session ◌-ℤ◌ ◌+ℤ◌
three_intervals = (refl, refl)

abbrev metered : Meters
metered = record empty {
  states =
      record {
        outlet_id = 5;
        energy_kwh = some (pos 100000);
        read_at = hours 100;
        last_interval_id = none;
      }
      ∷ [];
}

reset_reading : (record_reading cab_on 5 (pos 7) (hours 101) metered).0 ≡ reset
unfolding record_reading
reset_reading = refl

read_all-total_example :
    total 5 (read_all 5 empty ((cab_on, [], pos 100000, hours 100) ∷ later_samples)).intervals
    ≡ pos 0 +ℤ (pos 115000 -ℤ pos 100000)
read_all-total_example =
    read_all-total 5 cab_on [] (pos 100000) (hours 100) empty later_samples refl (omega arith)

record_reading-IsSeparate_example :
    IsSeparate (record_reading cab_off 5 (pos 112000) (hours 101) metered).1.intervals
record_reading-IsSeparate_example =
    record_reading-IsSeparate cab_off 5 (pos 112000) (hours 101) metered tt

first_due : (is_due 300 (hours 5) none).0 ≡ true
unfolding is_due
first_due = refl

second_due : (is_due 60 (hours 6) (is_due 300 (hours 5) none).1).0 ≡ true
unfolding is_due
second_due = refl

first_night : (nightly_due (days 3 + hours 2) none).0 ≡ true
unfolding nightly_due
first_night = refl

second_night : (nightly_due (days 4 + hours 2) (nightly_due (days 3 + hours 2) none).1).0 ≡ true
unfolding nightly_due
second_night = refl

abbrev leak : Json
leak = obj (field "id" (int (pos 77)) (field "pedestal_id" (int (pos 9)) end))

abbrev listed : Items
listed = cons leak (cons (str "x") (cons leak nil))

abbrev logged_leak : List AlarmRow
logged_leak =
    record { cabinet_id = 1; cabinet_alarm_id = pos 77; alarm_data = leak; received_at = hours 1 }
    ∷ []

stored_once : store_alarms (cab_on ∷ []) listed (hours 1) [] ≡ (some 1, logged_leak)
unfolding store_alarms store_alarm
stored_once = refl

store_alarms-again_example :
    store_alarms (cab_on ∷ []) listed (hours 2) logged_leak ≡ (some 0, logged_leak)
store_alarms-again_example =
    store_alarms-again (cab_on ∷ []) listed (hours 1) (hours 2) [] logged_leak 1 stored_once
