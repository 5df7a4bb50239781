-- ===== src/Retention/Tests.antt =====
-- Sweeps over a few rows, and the theorems at them.
use erp_iot.Base.{
  ℕ, ◌≡◌, refl, ◌+◌, ◌*◌, true, false, none, some, List, [], ◌∷◌, arith, select, not, length,
}
use erp_iot.Base.Int.{pos, ◌+ℤ◌}
use erp_iot.Base.Time.{Time, days, hours}
use erp_iot.Collector.{Interval}
use erp_iot.Retention.{
  Log, sync_log, Stamp, Store, stamp_id, interval_id, is_old, is_old_stamp, delete_older,
  roll_up_intervals, run, days_of,
}
use erp_iot.Retention.Calendar.{month}
use erp_iot.Retention.Chunks.{sweep}
use erp_iot.Retention.Monthly.{Key, tally, tally_all}
use erp_iot.Retention.Conserved.{held, counted, energy, water, roll_up_intervals-conserves}
use erp_iot.Retention.Complete.{delete_older_lem, run_lem, IsSwept}

-- 1970-01-01, 2000-02-29, 2000-03-01, 2026-10-12 and 2100-12-31 (days since 1970)
first_month : month 0 ≡ 12 * 1970
unfolding month
first_month = refl

leap_day : month (days 11016 + hours 23) ≡ 12 * 2000 + 1
unfolding month
leap_day = refl

after_leap_day : month (days 11017) ≡ 12 * 2000 + 2
unfolding month
after_leap_day = refl

october : month (days 20738) ≡ 12 * 2026 + 9
unfolding month
october = refl

last_of_century : month (days 47846) ≡ 12 * 2100 + 11
unfolding month
last_of_century = refl

abbrev stamp : ℕ → Time → Stamp
stamp id at = record { id = id; at = some at }

abbrev stamps : List Stamp
stamps = stamp 1 5 ∷ stamp 2 50 ∷ record { id = 3; at = none } ∷ stamp 4 6 ∷ stamp 5 7 ∷ []

one_by_one : delete_older 1 9 10 stamps ≡ record {
  is_finished = true;
  total = 3;
  state = stamp 2 50 ∷ record { id = 3; at = none } ∷ [];
}
unfolding delete_older sweep
one_by_one = refl

delete_older_lem_example :
    let r = delete_older 2 6 10 stamps in
    (r.is_finished ≡ true)
    × (r.total ≡ length (select (is_old_stamp 10) stamps))
    × (r.state ≡ select (λ a. not (is_old_stamp 10 a)) stamps)
delete_older_lem_example = delete_older_lem 2 6 10 stamps (omega arith) (omega arith) (ground arith)

abbrev reading : ℕ → ℕ → Time → ℕ → Interval
reading id outlet at amount = record {
  id = id;
  outlet_id = outlet;
  session_id = none;
  standalone = false;
  from_at = at;
  to_at = at + hours 1;
  energy_kwh = some (pos amount);
  water_liters = none;
  meter_from = none;
  meter_to = none;
  source = "register";
}

abbrev january : Key
january = record { outlet_id = 7; month = 12 * 1970; standalone = false }

-- outlet 9 is simulated
abbrev store : Store
store = record {
  rows = λ t. stamps;
  intervals =
      reading 1 7 0 100
      ∷ reading 2 7 (hours 2) 20
      ∷ reading 3 9 0 5
      ∷ reading 4 7 (days 500) 3
      ∷ [];
  monthly = [];
  states = [];
  simulated_outlets = 9 ∷ [];
}

rolled_up :
    (run (days 600) store).1.monthly
    ≡ record { key = january; energy_kwh = some (pos 120); water_liters = none; interval_count = 2 }
      ∷ []
unfolding run roll_up_intervals sweep delete_older tally tally_all month ◌+ℤ◌
    erp_iot.Retention.delete_simulated_intervals
rolled_up = refl

roll_up_intervals-conserves_example :
    let st' = (roll_up_intervals 1 1 (days 200) store).state in
    (held energy january st' ≡ held energy january store)
    × (held water january st' ≡ held water january store)
    × (counted january st' ≡ counted january store)
roll_up_intervals-conserves_example =
    roll_up_intervals-conserves 1 1 (days 200) store january (ground arith)

run_lem_example : IsSwept (days 600) store (run (days 600) store)
run_lem_example = run_lem (days 600) store (λ t. ground arith) (ground arith)
