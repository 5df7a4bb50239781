-- ===== src/Cabinet/BerthStatus/Alarms.antt =====
-- The alarms that `compute` lists, and what they leave alone.
use erp_iot.Base.{ℕ, ◌≡◌, ◌≢◌, refl, Bool, false, List, [], ◌∷◌, arith, any, All, ◌==◌, ◌<◌, ◌&&◌}
use erp_iot.Cabinet.BerthStatus.{
  BerthSignals, AlarmCode, water_leak, too_hot, auto_off_overload, breaker_tripped,
  measurement_missing, no_cabinet, no_contact, Row, StatusCode, attention, raised_codes,
  alarm_table, alarms_known, with_attention, is_grey_code, winner, compute, raised, alarm_list,
}

-- The same berth with other alarm inputs.
abbrev pub with_alarms : (leak hot overload tripped missing : Bool) → BerthSignals → BerthSignals
with_alarms leak hot overload tripped missing s = record s {
  water_leak = leak;
  too_hot = hot;
  auto_off_overload = overload;
  breaker_tripped = tripped;
  measurement_missing = missing;
}

-- An alarm is never a colour: whatever the five alarm inputs are, the status code, the colour, the
-- sentence and the four signals of the berth stay the same.
pub compute-with_alarms :
    (leak hot overload tripped missing : Bool) (s : BerthSignals)
    → let a = compute (with_alarms leak hot overload tripped missing s) in
      let b = compute s in
      (a.status_code ≡ b.status_code)
      × (a.berth_colour ≡ b.berth_colour)
      × (a.status_sentence ≡ b.status_sentence)
      × (a.connection ≡ b.connection)
      × (a.vessel ≡ b.vessel)
      × (a.power ≡ b.power)
      × (a.reservation ≡ b.reservation)
unfolding compute
compute-with_alarms leak hot overload tripped missing s = (refl, refl, refl, refl, refl, refl, refl)

-- how bad an alarm is; 3 is the worst
abbrev rank : AlarmCode → ℕ
rank water_leak = 3
rank too_hot = 4
rank auto_off_overload = 5
rank breaker_tripped = 6
rank measurement_missing = 7

abbrev pub listed : AlarmCode → List AlarmCode → Bool
listed a alarm = any (λ b. rank a == rank b) alarm

-- Every alarm is worse than those behind it.
abbrev pub IsWorstFirst : List AlarmCode → Type 0
IsWorstFirst [] = Unit
IsWorstFirst (a ∷ alarm) = All (λ b. rank a < rank b) alarm × IsWorstFirst alarm

listed-raised_codes :
    (s : BerthSignals) (a : AlarmCode) → listed a (raised_codes s alarm_table) ≡ raised s a
listed-raised_codes s water_leak = ground arith
listed-raised_codes s _ = ground arith

raised_codes-IsWorstFirst : (s : BerthSignals) → IsWorstFirst (raised_codes s alarm_table)
raised_codes-IsWorstFirst s = ground arith

alarm_list_lem :
    (s : BerthSignals) (code : StatusCode) (a : AlarmCode)
    → (listed a (alarm_list s code) ≡ (alarms_known code && raised s a))
      × IsWorstFirst (alarm_list s code)
unfolding alarm_list
alarm_list_lem s no_cabinet a = (refl, tt)
alarm_list_lem s no_contact a = (refl, tt)
alarm_list_lem s _ a = (listed-raised_codes s a, raised_codes-IsWorstFirst s)

with_attention_lem :
    (alarm : List AlarmCode) (r : Row)
    → alarm ≢ []
    → is_grey_code r.code ≡ false
    → with_attention alarm r ≡ attention
with_attention_lem alarm r h k = ground arith

-- An alarm is listed exactly when the cabinet raises it and the berth has a cabinet that is in
-- contact, and the worst alarm stands first.
pub compute-alarm :
    (s : BerthSignals) (a : AlarmCode)
    → let b = compute s in
      (listed a b.alarm ≡ (alarms_known b.status_code && raised s a)) × IsWorstFirst b.alarm
unfolding compute
compute-alarm s a = alarm_list_lem s (winner s).code a

-- A berth that is not grey needs attention as soon as one alarm is listed.
pub compute_alarm-attention :
    (s : BerthSignals)
    → (compute s).alarm ≢ []
    → is_grey_code (compute s).status_code ≡ false
    → (compute s).status ≡ attention
unfolding compute
compute_alarm-attention s h k = with_attention_lem (alarm_list s (winner s).code) (winner s) h k
