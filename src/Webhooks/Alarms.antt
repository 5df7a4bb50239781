-- ===== src/Webhooks/Alarms.antt =====
-- backend/app/routers/webhooks.py: what a webhook of a cabinet does to the log of the alarms.
use erp_iot.Base.{ℕ, ◌≡◌, true, false, some, List, ◌∷◌, ◌++◌, any, String}
use erp_iot.Base.Int.{ℤ}
use erp_iot.Base.Json.{Json}
use erp_iot.Base.Time.{Time}
use erp_iot.Webhooks.Tables.{AlarmLog, Store}
use erp_iot.Webhooks.{World, Reply, received, alarm_logged, already_known, Answer}
use erp_iot.Webhooks.Receive.{is_known, is_row_of}
use erp_iot.Webhooks.Cases.{told, is_sighting}

-- What one webhook of the cabinet `id` says of an alarm and does to the log: `rows` is the log, and
-- `between` what others add while the handler runs.
pub data IsSighted (id : ℕ) (between rows : List AlarmLog) : Reply → List AlarmLog → Type 0 where
  quiet : (r : Reply) → is_sighting r ≡ false → IsSighted id between rows r rows
  known :
      (event : String) (payload : Json) (n : ℤ)
      → told payload ≡ some n
      → any (is_row_of id n) rows ≡ true
      → IsSighted id between rows (received event (some already_known)) rows
  known_since :
      (event : String) (payload : Json) (n : ℤ)
      → told payload ≡ some n
      → any (is_row_of id n) (between ++ rows) ≡ true
      → IsSighted id between rows (received event (some already_known)) (between ++ rows)
  logged :
      (event : String) (r : AlarmLog)
      → r.cabinet_id ≡ some id
      → r.cabinet_alarm_id ≡ told r.alarm_data
      → is_known id (told r.alarm_data) (between ++ rows) ≡ false
      → IsSighted id between rows (received event (some alarm_logged)) (r ∷ between ++ rows)

module _ (w : World) (id : ℕ) (between : List AlarmLog) (now : Time) (db : Store) where
  abbrev Goal : Answer → Type 0
  Goal a = IsSighted id between db.alarm_log a.0 a.1.alarm_log
