-- ===== src/Collector/Schedule.antt =====
-- When a task of the collector is due, and what an alarm answer and a load answer store.
use erp_iot.Base.{
  ℕ, suc, ◌+◌, ◌*◌, ◌/◌, ◌%◌, ◌<>◌, String, Bool, true, false, not, ◌&&◌, ◌||◌, Option, none, some,
  List, [], ◌∷◌, first, map, any, is_some, ltb, leb, ◌==◌, if◌then◌else◌, str_eq,
}
use erp_iot.Base.Int.{ℤ, pos, negsuc, ltb_ℤ, eqb_ℤ}
use erp_iot.Base.Json.{
  Json, null, bool, int, float, str, arr, obj, Items, nil, cons, Dict, Fields, entries, get_json,
  scale, is_hashable, truthy,
}
use erp_iot.Cabinet.SessionPayload.Results.{Result, ok, raise, type_error, ◌>>=◌}
use erp_iot.Base.Text.{text_of_int}
use erp_iot.Base.Time.{Time, seconds, hours, days, older_than}
use erp_iot.Sessions.Table.{ErpSession, SessionStatus, ended}
use erp_iot.Collector.{PolledCabinet, PolledOutlet, AlarmRow, Meters, Reading, record_reading}
pub mod Due
pub mod Alarms

-- `_is_due`: the answer, and when the key last ran
unfoldable pub is_due : (every : ℕ) → Time → Option Time → Bool × Option Time
is_due every now none = (true, some now)
is_due every now (some last) =
    if ltb now (last + seconds every) then (false, some last) else (true, some now)

abbrev pub hour_of : Time → ℕ
hour_of t = t % days 1 / hours 1

abbrev pub date_of : Time → ℕ
date_of t = t / days 1

-- `NIGHTLY_HOUR_UTC`
abbrev pub nightly_hour : ℕ
nightly_hour = 2

abbrev pub ran_today : Time → Option Time → Bool
ran_today now none = false
ran_today now (some last) = date_of last == date_of now

-- `_nightly_due`
unfoldable pub nightly_due : Time → Option Time → Bool × Option Time
nightly_due now last =
    if not (hour_of now == nightly_hour) || ran_today now last
    then (false, last)
    else (true, some now)

-- `EVERY`, in seconds
abbrev pub load_active : ℕ
load_active = 60

abbrev pub load_idle : ℕ
load_idle = 300

abbrev pub is_open : SessionStatus → Bool
is_open ended = false
is_open _ = true

-- `_erp_session_open`
abbrev pub erp_session_open : List ErpSession → ℕ → Bool
erp_session_open sessions cabinet = any (λ s. s.cabinet_id == cabinet && is_open s.status) sessions

-- how often `_cabinet_tasks` reads the load of a cabinet
unfoldable pub load_every : (busy_sessions busy_load : Bool) → List ErpSession → PolledCabinet → ℕ
load_every busy_sessions busy_load sessions cab =
    if cab.is_simulated
    then load_idle
    else if busy_sessions || busy_load || erp_session_open sessions cab.id
    then load_active
    else load_idle

-- `isinstance(v, int)`: a truth value is an int too
abbrev pub int_id : Json → Option ℤ
int_id (int n) = some n
int_id (bool true) = some (pos 1)
int_id (bool false) = some (pos 0)
int_id _ = none

-- a value that equals a primary key
abbrev pub is_pk : ℕ → Json → Bool
is_pk pk (int n) = eqb_ℤ n (pos pk)
is_pk pk (bool true) = pk == 1
is_pk pk (bool false) = pk == 0
is_pk pk (float x) = eqb_ℤ x (scale (pos pk))
is_pk pk _ = false

abbrev pub last_of : (PolledCabinet → Bool) → List PolledCabinet → Option PolledCabinet
last_of p [] = none
last_of p (c ∷ cabs) = elim (last_of p cabs) [
  | some d ↦ some d
  | none ↦ if p c then some c else none
]

abbrev pub is_logged : ℕ → ℤ → AlarmRow → Bool
is_logged cabinet alarm r = r.cabinet_id == cabinet && eqb_ℤ r.cabinet_alarm_id alarm

-- one alarm of `_store_alarms`: how many are new, and the rows; `none` is the TypeError of a
-- pedestal that no dictionary can hold as a key, behind which the alarms before it stay
abbrev pub Stored : Type 0
Stored = Option ℕ × List AlarmRow

abbrev pub log_alarm : ℕ → ℤ → Json → Time → List AlarmRow → Stored
log_alarm cabinet alarm v now rows =
    if any (is_logged cabinet alarm) rows then (some 0, rows) else (
      some 1,
      record { cabinet_id = cabinet; cabinet_alarm_id = alarm; alarm_data = v; received_at = now }
          ∷ rows,
    )

abbrev pub log_for : Option PolledCabinet → ℤ → Json → Time → List AlarmRow → Stored
log_for none alarm v now rows = (some 0, rows)
log_for (some cab) alarm v now rows = log_alarm cab.id alarm v now rows

abbrev pub log_at : List PolledCabinet → Option ℤ → Json → Json → Time → List AlarmRow → Stored
log_at cabs none pedestal v now rows = (some 0, rows)
log_at cabs (some alarm) pedestal v now rows =
    if is_hashable pedestal
    then log_for (last_of (λ c. is_pk c.pedestal_pk pedestal) cabs) alarm v now rows
    else (none, rows)

unfoldable pub store_alarm : List PolledCabinet → Json → Time → List AlarmRow → Stored
store_alarm cabs (obj fs) now rows =
    log_at cabs (int_id (get_json "id" (entries fs))) (get_json "pedestal_id" (entries fs)) (obj fs)
      now rows
store_alarm cabs _ now rows = (some 0, rows)

abbrev pub add_count : ℕ → Stored → Stored
add_count n (none, rows) = (none, rows)
add_count n (some k, rows) = (some (n + k), rows)

-- the rest of the loop behind one alarm
abbrev pub after_alarm : Stored → (List AlarmRow → Stored) → Stored
after_alarm (none, rows) rest = (none, rows)
after_alarm (some n, rows) rest = add_count n (rest rows)

-- `_store_alarms`
unfoldable pub store_alarms : List PolledCabinet → Items → Time → List AlarmRow → Stored
store_alarms cabs nil now rows = (some 0, rows)
store_alarms cabs (cons a alarms) now rows =
    after_alarm (store_alarm cabs a now rows) (λ rows'. store_alarms cabs alarms now rows')

-- `_dec`: a register of a load answer; `decimal` reads a text as `Decimal` does
abbrev pub register_of : (decimal : String → Option ℤ) → Json → Option ℤ
register_of decimal (int n) = some (scale n)
register_of decimal (float x) = some x
register_of decimal (str s) = decimal s
register_of decimal _ = none

-- `(v or 0) > 0`
abbrev pub is_positive : Json → Result Bool
is_positive (int n) = ok (ltb_ℤ (pos 0) n)
is_positive (float x) = ok (ltb_ℤ (pos 0) x)
is_positive (bool b) = ok b
is_positive v = if truthy v then raise type_error else ok false

abbrev pub whole : Json → Option ℤ
whole (int n) = some n
whole _ = none

-- one socket of a load answer: its outlet and its register; a truth value names no outlet
abbrev pub socket_reading :
    (String → Option ℤ) → List PolledOutlet → Dict → Option (PolledOutlet × ℤ)
socket_reading decimal outlets d = elim (whole (get_json "socket_id" d)) [
  | none ↦ none
  | some n ↦ elim (first (λ o. str_eq o.outlet_name ("Q" <> text_of_int n)) outlets) [
    | none ↦ none
    | some o ↦ elim (register_of decimal (get_json "energy_kwh" d)) [
      | none ↦ none
      | some r ↦ some (o, r)
    ]
  ]
]

abbrev pub shows_load : Dict → Result Bool
shows_load d = is_positive (get_json "power_kw" d) >>= λ b.
    if b then ok true else is_positive (get_json "current_amps" d)

-- the loop of `_store_load`: the words of the readings, and whether something runs
unfoldable pub store_load :
    (String → Option ℤ)
    → PolledCabinet
    → List PolledOutlet
    → Items
    → Time
    → Meters
    → Result (List Reading × Bool × Meters)
store_load decimal cab outlets nil now m = ok ([], false, m)
store_load decimal cab outlets (cons (obj fs) sockets) now m =
    elim (socket_reading decimal outlets (entries fs)) [
      | none ↦ store_load decimal cab outlets sockets now m
      | some (o, r) ↦ shows_load (entries fs) >>= λ busy.
          let (w, m') = record_reading cab o.id r now m in
          store_load decimal cab outlets sockets now m' >>= λ t. ok (w ∷ t.0, busy || t.1, t.2)
    ]
store_load decimal cab outlets (cons _ sockets) now m = store_load decimal cab outlets sockets now m
