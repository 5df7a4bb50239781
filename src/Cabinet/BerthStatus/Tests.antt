-- ===== src/Cabinet/BerthStatus/Tests.antt =====
-- Berths at fixed signals, and the theorems at them.
use erp_iot.Base.{◌+◌, ◌≡◌, ◌≢◌, ◌↔◌, refl, true, false, none, some, [], ◌∷◌, ◌≤◌}
use erp_iot.Base.Int.{pos}
use erp_iot.Base.Text.{two_digits}
use erp_iot.Base.Time.{Time, minutes, hours}
use erp_iot.Cabinet.BerthStatus.{
  BerthSignals, stale, clock_text, default_heartbeat_interval, green, vessel_mismatch, free,
  compute, water_leak, breaker_tripped, attention, is_grey_code, truth,
}
use erp_iot.Cabinet.BerthStatus.Winner.{IsFree, compute-green_iff, compute-rank_least, rank_of}

-- 09:05 on some day
abbrev noon : Time
noon = hours 24241 + minutes 5

abbrev quiet : BerthSignals
quiet = record {
  now = noon;
  last_heartbeat = some (hours 24241);
  smart_mode = some true;
  data_is_stale = false;
  data_synced_at = some (hours 24241);
  outlet_silent = false;
  water_leak = false;
  too_hot = false;
  auto_off_overload = false;
  breaker_tripped = false;
  measurement_missing = false;
  state_code = some (pos 0);
  last_analyzed = some (hours 24241);
  power_active = some false;
  reserved = none;
  heartbeat_interval = default_heartbeat_interval;
  has_cabinet = true;
}

abbrev mismatch : BerthSignals
mismatch = record quiet { state_code = some (pos 2); water_leak = true; breaker_tripped = true }

abbrev silent : BerthSignals
silent = record mismatch { data_is_stale = true }

quiet_is_free :
    ((compute quiet).berth_colour ≡ green)
    × ((compute quiet).status_code ≡ free)
    × ((compute quiet).connection ≡ stale)
unfolding compute
quiet_is_free = (refl, refl, refl)

silent_sentence :
    ((compute silent).status_sentence ≡ "No connection to this cabinet — podaci od 01:00")
    × ((compute silent).alarm ≡ [])
unfolding compute clock_text two_digits
silent_sentence = (refl, refl)

mismatch_alarm :
    ((compute mismatch).alarm ≡ water_leak ∷ breaker_tripped ∷ [])
    × ((compute mismatch).status ≡ attention)
unfolding compute
mismatch_alarm = (refl, refl)

compute-green_iff_example : ((compute quiet).berth_colour ≡ green) ↔ IsFree quiet
compute-green_iff_example = compute-green_iff quiet

mismatch-true : truth mismatch vessel_mismatch ≡ true
unfolding truth
mismatch-true = refl

compute-rank_least_example :
    (truth mismatch (compute mismatch).status_code ≡ true)
    × (rank_of (compute mismatch).status_code ≤ 80)
compute-rank_least_example = compute-rank_least mismatch vessel_mismatch mismatch-true

mismatch_has_alarm : (compute mismatch).alarm ≢ []
unfolding compute
mismatch_has_alarm e = cc

mismatch_is_coloured : is_grey_code (compute mismatch).status_code ≡ false
unfolding compute
mismatch_is_coloured = refl
