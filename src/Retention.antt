-- ===== src/Retention.antt =====
-- backend/app/services/retention.py: old rows are deleted chunk by chunk, and old consumption is added
-- to the monthly figures in the transaction that deletes it. Of the fourteen tables that are only
-- deleted from, a row is its key and its time; `LIMIT` takes the rows in the order of the list.
use erp_iot.Base.{
  ℕ, suc, ◌+◌, ◌-◌, Bool, false, ◌&&◌, Option, none, some, List, [], ◌∷◌, map, any, ltb, ◌==◌,
  if◌then◌else◌, length,
}
use erp_iot.Base.Time.{Time, days}
use erp_iot.Collector.{Interval, MeterState}
pub mod Calendar
pub mod Chunks
pub mod Monthly
pub mod Removed
pub mod Conserved
pub mod Complete
mod Tests
use Chunks.{chunk_of, after_chunk, without, Progress, sweep}
use Monthly.{Figures, tally_all, aggregated}

abbrev pub chunk : ℕ
chunk = 5000

-- the tables of `windows()`, with the defaults of backend/app/config.py
pub data Log : Type 0 where
  sync_log session_log alarm_log command_audit audit_log reconciliation_runs : Log
  pedestal_cache auth_audit setup_tokens security_alarms decoy_hits service_windows : Log
  berth_reservations security_agent_passes : Log

abbrev pub days_of : Log → ℕ
days_of sync_log = 30
days_of session_log = 90
days_of alarm_log = 400
days_of command_audit = 730
days_of audit_log = 730
days_of reconciliation_runs = 90
days_of pedestal_cache = 30
days_of auth_audit = 730
days_of setup_tokens = 30
days_of security_alarms = 730
days_of decoy_hits = 730
days_of service_windows = 400
days_of berth_reservations = 400
days_of security_agent_passes = 7

abbrev pub intervals_days : ℕ
intervals_days = 400

abbrev pub simulated_intervals_days : ℕ
simulated_intervals_days = 30

pub record Stamp : Type 0 where
  pub id : ℕ
  pub at : Option Time

-- `col < cutoff`, which is not true of NULL
abbrev pub is_before : Time → Option Time → Bool
is_before cutoff none = false
is_before cutoff (some t) = ltb t cutoff

abbrev pub is_old_stamp : Time → Stamp → Bool
is_old_stamp cutoff r = is_before cutoff r.at

abbrev pub stamp_id : Stamp → ℕ
stamp_id r = r.id

abbrev pub interval_id : Interval → ℕ
interval_id r = r.id

unfoldable pub delete_older : (size fuel : ℕ) → Time → List Stamp → Progress (List Stamp)
delete_older size fuel cutoff rows =
    sweep (chunk_of stamp_id size (is_old_stamp cutoff))
      (after_chunk stamp_id size (is_old_stamp cutoff)) fuel 0 rows

-- `intervals` stands in the order of the keys
pub record Store : Type 0 where
  pub rows : Log → List Stamp
  pub intervals : List Interval
  pub monthly : List Figures
  pub states : List MeterState
  pub simulated_outlets : List ℕ

abbrev pub is_old : Time → Interval → Bool
is_old cutoff r = ltb r.to_at cutoff

abbrev pub is_old_simulated : List ℕ → Time → Interval → Bool
is_old_simulated outlets cutoff r = is_old cutoff r && any (λ o. o == r.outlet_id) outlets

-- the meter state may point at a row about to go
abbrev pub without_interval : List ℕ → Option ℕ → Option ℕ
without_interval ids none = none
without_interval ids (some n) = if any (λ i. i == n) ids then none else some n

abbrev pub forgotten : List ℕ → MeterState → MeterState
forgotten ids s = record s { last_interval_id = without_interval ids s.last_interval_id }

abbrev pub simulated_chunk : (size : ℕ) → List ℕ → Time → Store → List Interval
simulated_chunk size outlets cutoff st =
    chunk_of interval_id size (is_old_simulated outlets cutoff) st.intervals

abbrev pub delete_simulated_chunk : (size : ℕ) → List ℕ → Time → Store → Store
delete_simulated_chunk size outlets cutoff st =
    let ids = map interval_id (simulated_chunk size outlets cutoff st) in
    record st {
      states = map (forgotten ids) st.states;
      intervals = without interval_id ids st.intervals;
    }

unfoldable pub delete_simulated_intervals : (size fuel : ℕ) → Time → Store → Progress Store
delete_simulated_intervals size fuel cutoff st =
    let outlets = st.simulated_outlets in
    sweep (simulated_chunk size outlets cutoff) (delete_simulated_chunk size outlets cutoff) fuel 0
      st

abbrev pub old_chunk : (size : ℕ) → Time → Store → List Interval
old_chunk size cutoff st = chunk_of interval_id size (is_old cutoff) st.intervals

-- roll-up and delete of one chunk: one transaction
abbrev pub roll_up_chunk : (size : ℕ) → Time → Store → Store
roll_up_chunk size cutoff st =
    let rows = old_chunk size cutoff st in
    record st {
      monthly = tally_all (aggregated rows) st.monthly;
      intervals = without interval_id (map interval_id rows) st.intervals;
    }

unfoldable pub roll_up_intervals : (size fuel : ℕ) → Time → Store → Progress Store
roll_up_intervals size fuel cutoff st =
    sweep (old_chunk size cutoff) (roll_up_chunk size cutoff) fuel 0 st

-- what `run` returns: the rows deleted from each table
pub record Report : Type 0 where
  pub deleted : Log → ℕ
  pub simulated_intervals : ℕ
  pub consumption_intervals : ℕ

abbrev pub swept_log : Time → Store → Log → Progress (List Stamp)
swept_log now st t =
    delete_older chunk (suc (length (st.rows t))) (now - days (days_of t)) (st.rows t)

abbrev pub swept_simulated : Time → Store → Progress Store
swept_simulated now st =
    delete_simulated_intervals chunk (suc (length st.intervals))
      (now - days simulated_intervals_days) st

abbrev pub swept_intervals : Time → Store → Progress Store
swept_intervals now st =
    roll_up_intervals chunk (suc (length st.intervals)) (now - days intervals_days) st

-- the tables one after the other, then the simulated intervals, then the others
unfoldable pub run : Time → Store → Report × Store
run now st =
    let simulated = swept_simulated now (record st { rows = λ t. (swept_log now st t).state }) in
    let rolled = swept_intervals now simulated.state in
    (
      record {
        deleted = λ t. (swept_log now st t).total;
        simulated_intervals = simulated.total;
        consumption_intervals = rolled.total;
      },
      rolled.state,
    )
