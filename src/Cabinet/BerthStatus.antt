-- ===== src/Cabinet/BerthStatus.antt =====
-- backend/app/cabinet/berth_status.py: the signals of one berth, the occupancy table with its
-- ranks (in tenths: 2.5 is 25), the alarm table, and `compute`.
use erp_iot.Base.{
  ℕ, zero, suc, ◌*◌, ◌/◌, ◌%◌, ◌<>◌, String, Bool, true, false, not, ◌&&◌, ◌||◌, Option, none, some,
  List, [], ◌∷◌, ltb, if◌then◌else◌,
}
use mathlib.Core.Option
use erp_iot.Base.Int.{ℤ, pos, negsuc}
use erp_iot.Base.Text.{two_digits}
use erp_iot.Base.Time.{Time, seconds, minutes, hours, older_than}
pub mod Winner
pub mod Alarms
mod Tests

pub data Connection : Type 0 where
  online stale offline : Connection

pub data Vessel : Type 0 where
  nobody right wrong unknown : Vessel

pub data Tri : Type 0 where
  affirmed denied unknown : Tri

pub data Severity : Type 0 where
  fine attention unknown : Severity

pub data Colour : Type 0 where
  uncoloured grey red orange yellow blue green : Colour

pub data StatusCode : Type 0 where
  no_cabinet no_contact standalone outlet_silent : StatusCode
  vessel_mismatch power_without_vessel reserved_empty vessel_present free : StatusCode
  unclassified : StatusCode

pub data AlarmCode : Type 0 where
  water_leak too_hot auto_off_overload breaker_tripped measurement_missing : AlarmCode

abbrev pub offline_after : ℕ
offline_after = minutes 10

abbrev pub vessel_fresh_for : ℕ
vessel_fresh_for = minutes 30

abbrev pub default_heartbeat_interval : ℕ
default_heartbeat_interval = seconds 60

pub record Row : Type 0 where
  pub rank : ℕ
  pub code : StatusCode
  pub status : Severity
  pub colour : Colour
  pub sentence : String

abbrev row : ℕ → StatusCode → Severity → Colour → String → Row
row rank code status colour sentence = record {
  rank = rank;
  code = code;
  status = status;
  colour = colour;
  sentence = sentence;
}

-- `_TABLE`
abbrev pub table : List Row
table =
    row 0 no_cabinet Severity.unknown uncoloured "No cabinet is connected to this berth yet"
    ∷ row 10 no_contact Severity.unknown grey "No connection to this cabinet"
    ∷ row 20 standalone Severity.unknown grey "The cabinet is running on its own"
    ∷ row 25 outlet_silent Severity.unknown grey "This outlet has not reported"
    ∷ row 80 vessel_mismatch attention red "The vessel does not match the berth"
    ∷ row 90 power_without_vessel attention orange "Power is on, but there is no vessel"
    ∷ row 100 reserved_empty attention yellow "Reserved, the berth is empty"
    ∷ row 110 vessel_present fine blue ""
    ∷ row 120 free fine green ""
    ∷ []

-- `UNCLASSIFIED`; its rank stands behind all of the table
abbrev pub unclassified_row : Row
unclassified_row = row 1000 unclassified Severity.unknown grey "Something needs checking"

-- `GREY_CODES`
abbrev pub is_grey_code : StatusCode → Bool
is_grey_code no_cabinet = true
is_grey_code no_contact = true
is_grey_code standalone = true
is_grey_code outlet_silent = true
is_grey_code _ = false

-- `_ALARMS`: rank, code, sentence
abbrev pub alarm_table : List (ℕ × AlarmCode × String)
alarm_table =
    (3, water_leak, "Water leak detected")
    ∷ (4, too_hot, "The cabinet is overheating")
    ∷ (5, auto_off_overload, "Power switched off automatically — overload")
    ∷ (6, breaker_tripped, "Breaker tripped — needs a reset")
    ∷ (7, measurement_missing, "Consumption not measured — needs a check")
    ∷ []

pub record BerthSignals : Type 0 where
  pub now : Time
  pub last_heartbeat : Option Time
  pub smart_mode : Option Bool
  pub data_is_stale : Bool
  pub data_synced_at : Option Time
  pub outlet_silent : Bool
  pub water_leak : Bool
  pub too_hot : Bool
  pub auto_off_overload : Bool
  pub breaker_tripped : Bool
  pub measurement_missing : Bool
  pub state_code : Option ℤ
  pub last_analyzed : Option Time
  pub power_active : Option Bool
  pub reserved : Option Bool
  pub heartbeat_interval : ℕ
  pub has_cabinet : Bool

pub record BerthStatus : Type 0 where
  pub status_code : StatusCode
  pub status : Severity
  pub berth_colour : Colour
  pub status_sentence : String
  pub connection : Connection
  pub vessel : Vessel
  pub power : Tri
  pub reservation : Tri
  pub data_as_of : Option String
  pub alarm : List AlarmCode

-- the age of the heartbeat `at`
abbrev pub connection_at : BerthSignals → Time → Connection
connection_at s at =
    if older_than s.now at offline_after
    then offline
    else if older_than s.now at (2 * s.heartbeat_interval)
    then stale
    else online

unfoldable pub connection_signal : BerthSignals → Connection
connection_signal s = elim s.last_heartbeat [ none ↦ offline | some at ↦ connection_at s at ]

-- the dictionary `{0: "NONE", 1: "RIGHT", 2: "WRONG"}`
abbrev pub vessel_of_code : ℤ → Vessel
vessel_of_code (pos zero) = nobody
vessel_of_code (pos (suc zero)) = right
vessel_of_code (pos (suc (suc zero))) = wrong
vessel_of_code _ = Vessel.unknown

abbrev pub vessel_at : BerthSignals → Option ℤ → Option Time → Vessel
vessel_at s (some code) (some at) =
    if older_than s.now at vessel_fresh_for then Vessel.unknown else vessel_of_code code
vessel_at s _ _ = Vessel.unknown

unfoldable pub vessel_signal : BerthSignals → Vessel
vessel_signal s = vessel_at s s.state_code s.last_analyzed

-- `_tri`
abbrev pub tri : Option Bool → Tri
tri none = Tri.unknown
tri (some true) = affirmed
tri (some false) = denied

abbrev is_offline : Connection → Bool
is_offline offline = true
is_offline _ = false

abbrev is_nobody : Vessel → Bool
is_nobody nobody = true
is_nobody _ = false

abbrev is_right : Vessel → Bool
is_right right = true
is_right _ = false

abbrev is_wrong : Vessel → Bool
is_wrong wrong = true
is_wrong _ = false

abbrev is_affirmed : Tri → Bool
is_affirmed affirmed = true
is_affirmed _ = false

abbrev pub is_false : Option Bool → Bool
is_false (some false) = true
is_false _ = false

-- the dictionary `truth` of `compute`
unfoldable pub truth : BerthSignals → StatusCode → Bool
unfolding connection_signal vessel_signal
truth s no_cabinet = not s.has_cabinet
truth s no_contact = is_offline (connection_signal s) || s.data_is_stale
truth s standalone = is_false s.smart_mode
truth s outlet_silent = s.outlet_silent
truth s vessel_mismatch = is_wrong (vessel_signal s)
truth s power_without_vessel = is_affirmed (tri s.power_active) && is_nobody (vessel_signal s)
truth s reserved_empty = is_affirmed (tri s.reserved) && is_nobody (vessel_signal s)
truth s vessel_present = is_right (vessel_signal s)
truth s free = is_nobody (vessel_signal s)
truth s unclassified = true

-- the `for … else` of `compute`: the first row whose code is true
abbrev pub first_true : BerthSignals → List Row → Row
first_true s [] = unclassified_row
first_true s (r ∷ rows) = if truth s r.code then r else first_true s rows

unfoldable pub winner : BerthSignals → Row
winner s = first_true s table

-- the dictionary `raised` of `compute`
abbrev pub raised : BerthSignals → AlarmCode → Bool
raised s water_leak = s.water_leak
raised s too_hot = s.too_hot
raised s auto_off_overload = s.auto_off_overload
raised s breaker_tripped = s.breaker_tripped
raised s measurement_missing = s.measurement_missing

abbrev pub raised_codes : BerthSignals → List (ℕ × AlarmCode × String) → List AlarmCode
raised_codes s [] = []
raised_codes s ((_, code, _) ∷ rows) =
    if raised s code then code ∷ raised_codes s rows else raised_codes s rows

abbrev pub alarms_known : StatusCode → Bool
alarms_known no_cabinet = false
alarms_known no_contact = false
alarms_known _ = true

unfoldable pub alarm_list : BerthSignals → StatusCode → List AlarmCode
alarm_list s code = if alarms_known code then raised_codes s alarm_table else []

abbrev is_empty : List AlarmCode → Bool
is_empty [] = true
is_empty _ = false

abbrev pub with_attention : List AlarmCode → Row → Severity
with_attention alarm r =
    if not (is_empty alarm) && not (is_grey_code r.code) then attention else r.status

-- `strftime("%H:%M")`
unfoldable pub clock_text : Time → String
clock_text at = two_digits (at / hours 1 % 24) <> ":" <> two_digits (at / minutes 1 % 60)

-- `as_of`: only for stale data whose time is known
abbrev pub as_of : BerthSignals → Option String
as_of s = if s.data_is_stale then Option.map clock_text s.data_synced_at else none

abbrev pub dated : String → Option String → String
dated sentence none = sentence
dated sentence (some at) = sentence <> " — podaci od " <> at

unfoldable pub compute : BerthSignals → BerthStatus
unfolding winner truth connection_signal vessel_signal alarm_list
compute s =
    let row = winner s in
    let alarm = alarm_list s row.code in
    record {
      status_code = row.code;
      status = with_attention alarm row;
      berth_colour = row.colour;
      status_sentence = dated row.sentence (as_of s);
      connection = connection_signal s;
      vessel = vessel_signal s;
      power = tri s.power_active;
      reservation = tri s.reserved;
      data_as_of = as_of s;
      alarm = alarm;
    }
