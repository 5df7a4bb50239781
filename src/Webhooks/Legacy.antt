-- ===== src/Webhooks/Legacy.antt =====
-- backend/app/routers/webhooks.py: `receive_webhook`, the receiver of a marina from before phase 4.
use erp_iot.Base.{
  ℕ, String, Bool, true, false, ◌&&◌, Option, none, some, List, [], ◌∷◌, first, any, ◌==◌,
  if◌then◌else◌, str_eq,
}
use erp_iot.Base.Int.{ℤ, pos, eqb_ℤ}
use erp_iot.Base.Json.{
  Json, bool, int, float, str, obj, Fields, end, field, Dict, entries, get, get_json, mentions,
  truthy, scale,
}
use erp_iot.Base.Text.{occurs}
use erp_iot.Base.Time.{Time}
use erp_iot.Cabinet.SessionPayload.{attribute_error, type_error, value_error, Result, ok, raise}
use erp_iot.Webhooks.Tables.{Marina, PedestalCache, Store}
use erp_iot.Webhooks.{
  Bytes, World, Loaded, value, bad_json, not_read, Request, refused, raised, received, Answer,
  verify_signature, capped,
}

-- `d.get(k, default)`
abbrev pub get_else : String → Json → Dict → Json
get_else k v d = elim (get k d) [ none ↦ v | some x ↦ x ]

-- `pedestal_id if pedestal_id else 0`
abbrev pub or_0 : Json → Json
or_0 v = if truthy v then v else int (pos 0)

abbrev pub is_at : ℕ → ℤ → PedestalCache → Bool
is_at marina pedestal r =
    r.marina_id == marina && (elim r.pedestal_id [ none ↦ false | some n ↦ eqb_ℤ n pedestal ])

abbrev pub new_entry : ℕ → ℤ → PedestalCache
new_entry marina pedestal = record {
  marina_id = marina;
  pedestal_id = some pedestal;
  last_seen_data = none;
  last_synced_at = none;
  is_stale = false;
  last_temperature = none;
  last_temperature_alarm = none;
  last_temperature_at = none;
  last_readings = [];
}

abbrev pub write_first :
    ℕ → ℤ → (PedestalCache → PedestalCache) → List PedestalCache → List PedestalCache
write_first marina pedestal f [] = []
write_first marina pedestal f (r ∷ rows) =
    if is_at marina pedestal r then f r ∷ rows else r ∷ write_first marina pedestal f rows

-- the entry of a pedestal is written, or a new one is added; a pedestal that no column takes is an
-- exception, which is logged and rolled back
unfoldable pub write_entry :
    World → ℕ → Json → (PedestalCache → PedestalCache) → List PedestalCache → List PedestalCache
write_entry w marina pedestal f rows = elim (w.column_int pedestal) [
  | none ↦ rows
  | some n ↦
      if any (is_at marina n) rows
      then write_first marina n f rows
      else f (new_entry marina n) ∷ rows
]

abbrev pub with_cache : Store → List PedestalCache → Store
with_cache db rows = record db { pedestal_cache = rows }

-- `_update_cache`
unfoldable pub update_cache : World → ℕ → (pedestal payload : Json) → Time → Store → Store
update_cache w marina pedestal payload now db =
    if truthy pedestal
    then with_cache db (
        write_entry w marina pedestal
          (λ r. record r {
            last_seen_data = some payload;
            last_synced_at = some now;
            is_stale = false;
          })
          db.pedestal_cache)
    else db

-- `float(v)`
abbrev pub float_of : World → Json → Result ℤ
float_of w (int n) = ok (scale n)
float_of w (float x) = ok x
float_of w (bool true) = ok (pos 10000)
float_of w (bool false) = ok (pos 0)
float_of w (str s) = elim (w.float_of_text s) [ none ↦ raise value_error | some x ↦ ok x ]
float_of w v = raise type_error

-- `payload.get("data", payload)`, which has to be a dictionary
abbrev pub dict_of : Json → Result Dict
dict_of (obj fs) = ok (entries fs)
dict_of v = raise attribute_error

abbrev pub body_of : Json → Dict → Result Dict
body_of payload fields = dict_of (get_else "data" payload fields)

abbrev pub with_temperature : World → ℕ → Json → Dict → Time → Store → Result ℤ → Store
with_temperature w marina pedestal body now db (raise e) = db
with_temperature w marina pedestal body now db (ok x) = with_cache db (
    write_entry w marina (or_0 pedestal)
      (λ r. record r {
        last_temperature = some x;
        last_temperature_alarm = some (truthy (get_else "alarm" (bool false) body));
        last_temperature_at = some now;
      })
      db.pedestal_cache)

-- `_update_temperature`: a value that `float` refuses is left
unfoldable pub update_temperature : World → ℕ → (pedestal : Json) → Dict → Time → Store → Store
update_temperature w marina pedestal body now db =
    with_temperature w marina pedestal body now db
      (float_of w (get_else "value" (get_else "temperature" (int (pos 0)) body) body))

-- `d[k] = v`
abbrev pub put : String → Json → Dict → Dict
put k v [] = (k, v) ∷ []
put k v ((j, x) ∷ d) = if str_eq j k then (j, v) ∷ d else (j, x) ∷ put k v d

abbrev pub put_all : Dict → Dict → Dict
put_all [] d = d
put_all ((k, v) ∷ rest) d = put_all rest (if str_eq k "pedestal_id" then d else put k v d)

abbrev pub of_dict : Dict → Fields
of_dict [] = end
of_dict ((k, v) ∷ d) = field k v (of_dict d)

abbrev pub alarm_reading : Dict → String → Dict
alarm_reading body at =
    ("value", get_json "value" body)
    ∷ ("alarm", get_else "alarm" (bool false) body)
    ∷ ("at", str at)
    ∷ []

abbrev pub is_health : String → Bool
is_health event = mentions event ("heartbeat" ∷ "pedestal_health_updated" ∷ [])

-- `reading` by the event; any other event has none
abbrev pub reading_of : (event : String) → Dict → (at : String) → Option Dict
reading_of event body at =
    if str_eq event "power_reading"
    then some (
        ("watts", get_json "watts" body)
        ∷ ("kwh_total", get_json "kwh_total" body)
        ∷ ("socket_id", get_json "socket_id" body)
        ∷ ("at", str at)
        ∷ [])
    else (if str_eq event "water_reading"
        then some (
            ("lpm", get_json "lpm" body)
            ∷ ("total_liters", get_json "total_liters" body)
            ∷ ("at", str at)
            ∷ [])
        else (if mentions event ("moisture_reading" ∷ "temperature_reading" ∷ [])
            then some (alarm_reading body at)
            else (if is_health event then some (put_all body (("at", str at) ∷ [])) else none)))

-- `_update_readings`
unfoldable pub update_readings :
    World → ℕ → (pedestal : Json) → (event : String) → Dict → Time → Store → Store
update_readings w marina pedestal event body now db = elim (reading_of event body (w.iso now)) [
  | none ↦ db
  | some reading ↦ with_cache db (
      write_entry w marina (or_0 pedestal)
        (λ r. record r { last_readings = put event (obj (of_dict reading)) r.last_readings })
        db.pedestal_cache)
]

-- `_write_alarm_log`
unfoldable pub write_alarm_log : World → ℕ → (pedestal payload : Json) → Time → Store → Store
write_alarm_log w marina pedestal payload now db = elim (w.column_int (or_0 pedestal)) [
  | none ↦ db
  | some n ↦ record db {
    alarm_log =
        record {
          marina_id = marina;
          pedestal_id = n;
          alarm_data = payload;
          received_at = now;
          cabinet_id = none;
          cabinet_alarm_id = none;
          source = none;
        }
        ∷ db.alarm_log;
  }
]

-- `_write_session_log`
unfoldable pub write_session_log : World → ℕ → (pedestal payload : Json) → Time → Store → Store
write_session_log w marina pedestal payload now db = elim (w.column_int (or_0 pedestal)) [
  | none ↦ db
  | some n ↦ record db {
    session_log =
        record { marina_id = marina; pedestal_id = n; session_data = payload; recorded_at = now }
        ∷ db.session_log;
  }
]

abbrev pub is_sensor_event : String → Bool
is_sensor_event event = mentions event (
    "power_reading" ∷ "water_reading" ∷ "moisture_reading" ∷ "temperature_reading" ∷ "heartbeat"
    ∷ "pedestal_health_updated" ∷ [])

-- the logs, by the words in the event
abbrev pub log_event :
    World → ℕ → (pedestal payload : Json) → (lowered : String) → Time → Store → Store
log_event w marina pedestal payload lowered now db =
    let alarms =
      if occurs "alarm" lowered then write_alarm_log w marina pedestal payload now db else db in
    if occurs "session" lowered
    then write_session_log w marina pedestal payload now alarms
    else alarms

abbrev pub read_body :
    World → ℕ → (pedestal : Json) → (event : String) → Time → Store → Result Dict → Answer
read_body w marina pedestal event now db (raise e) = (raised e, db)
read_body w marina pedestal event now db (ok body) = (
  received event none,
  update_readings w marina pedestal event body now (
      if str_eq event "temperature_reading"
      then update_temperature w marina pedestal body now db
      else db),
)

-- the readings, of a sensor's event
abbrev pub sensed :
    World → ℕ → (pedestal payload : Json) → Dict → (event : String) → Time → Store → Answer
sensed w marina pedestal payload fields event now db =
    if is_sensor_event event
    then read_body w marina pedestal event now db (body_of payload fields)
    else (received event none, db)

-- an event that is no text has no `lower`, behind the commit of the cache
abbrev pub take_event :
    World
    → ℕ
    → (lower : String → String) → (pedestal payload : Json) → Dict
    → (event : Json) → Time
    → Store
    → Answer
take_event w marina lower pedestal payload fields (str event) now db =
    sensed w marina pedestal payload fields event now
      (log_event w marina pedestal payload (lower event) now db)
take_event w marina lower pedestal payload fields v now db = (raised attribute_error, db)

unfoldable pub take_payload : World → ℕ → (lower : String → String) → Json → Time → Store → Answer
take_payload w marina lower (obj fs) now db =
    let pedestal = get_else "pedestal_id" (int (pos 0)) (entries fs) in
    take_event w marina lower pedestal (obj fs) (entries fs)
      (get_else "event_type" (get_else "event" (str "unknown") (entries fs)) (entries fs)) now
      (update_cache w marina pedestal (obj fs) now db)
take_payload w marina lower v now db = (raised attribute_error, db)

abbrev pub take_loaded : World → ℕ → (lower : String → String) → Loaded → Time → Store → Answer
take_loaded w marina lower (value v) now db = take_payload w marina lower v now db
take_loaded w marina lower bad_json now db = (refused 400 "Invalid JSON payload", db)
take_loaded w marina lower (not_read e) now db = (raised e, db)

abbrev pub take_signed :
    World → ℕ → (lower : String → String) → Time → Bytes → Store → Result Bool → Answer
take_signed w marina lower now body db (raise e) = (raised e, db)
take_signed w marina lower now body db (ok false) = (refused 401 "Invalid webhook signature", db)
take_signed w marina lower now body db (ok true) = take_loaded w marina lower (w.loads body) now db

-- fail closed: no secret, no writes
abbrev pub take_secret :
    World → ℕ → (lower : String → String) → Request → Time → Bytes → Store → Option String → Answer
take_secret w marina lower req now body db none =
    (refused 401 "Webhook not configured for this marina", db)
take_secret w marina lower req now body db (some secret) =
    if str_eq secret ""
    then (refused 401 "Webhook not configured for this marina", db)
    else (if str_eq req.x_webhook_signature ""
        then (refused 401 "Missing X-Webhook-Signature header", db)
        else take_signed w marina lower now body db
            (verify_signature w secret body req.x_webhook_signature))

abbrev pub marina_at : ℕ → Store → Option Marina
marina_at id db = first (λ m. m.id == id) db.marinas

abbrev pub take_marina :
    World → (lower : String → String) → Request → Time → Bytes → Store → Option Marina → Answer
take_marina w lower req now body db none = (refused 404 "Marina not found", db)
take_marina w lower req now body db (some m) =
    take_secret w m.id lower req now body db m.webhook_secret

-- `receive_webhook`
unfoldable pub receive_webhook :
    World → (lower : String → String) → ℕ → Request → Time → Store → Answer
receive_webhook w lower id req now db =
    capped w req db (λ body. take_marina w lower req now body db (marina_at id db))
