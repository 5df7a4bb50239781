-- ===== src/Webhooks/Receive.antt =====
-- backend/app/routers/webhooks.py: `receive_cabinet_webhook`, the receiver of one cabinet.
use erp_iot.Base.{
  ℕ, String, Bool, true, false, not, ◌&&◌, ◌||◌, ◌<>◌, ◌++◌, Option, none, some, List, [], ◌∷◌,
  first, any, take, map, is_some, ◌==◌, if◌then◌else◌, str_eq,
}
use erp_iot.Base.Int.{ℤ, pos, eqb_ℤ}
use erp_iot.Base.Json.{
  Json, null, bool, int, str, obj, Dict, entries, keys, get_json, mentions, sorted,
}
use erp_iot.Base.Text.{cut, text_of_int}
use erp_iot.Base.Time.{Time}
use erp_iot.Cabinet.SessionPayload.{attribute_error, Result, ok, raise, ◌>>=◌}
use erp_iot.Sessions.{Cabinet, Db, Applied, apply}
use erp_iot.Webhooks.Tables.{Sender, AlarmLog, Shape, Store}
use erp_iot.Webhooks.{
  Bytes, World, Loaded, value, bad_json, not_read, Request, Reply, refused, raised, received,
  Answer, session_logged, alarm_logged, already_known, verify_signature, capped, decoy_key,
}

abbrev pub refusal : Reply
refusal = refused 401 "Invalid or missing webhook credentials"

abbrev pub no_key : String
no_key = "\0no-key\0"

-- `db.get(Cabinet, id)`
abbrev pub sender_at : ℕ → Store → Option Sender
sender_at id db = first (λ c. c.id == id) db.senders

-- `expected`: the key that the cabinet sends, if there is one that can be read
abbrev pub stored_key : World → Option Sender → Option String
stored_key w none = none
stored_key w (some c) = elim c.webhook_key_enc [
  | none ↦ none
  | some enc ↦ if str_eq enc "" then none else w.decrypt enc
]

-- `expected or _NO_KEY`
abbrev pub or_no_key : Option String → String
or_no_key none = no_key
or_no_key (some k) = if str_eq k "" then no_key else k

abbrev pub secret_of : World → Option String → Result (Option String)
secret_of w none = raise attribute_error
secret_of w (some enc) = ok (w.decrypt enc)

abbrev pub signed_by : World → Option String → Bytes → (signature : String) → Result Bool
signed_by w none body signature = ok false
signed_by w (some secret) body signature =
    if str_eq secret "" || str_eq signature ""
    then ok false
    else verify_signature w secret body signature

-- the switch of the cabinet, and the signature where it is on
abbrev pub is_signed : World → Sender → Bytes → (signature : String) → Result Bool
is_signed w c body signature =
    if c.webhook_hmac
    then (secret_of w c.webhook_secret_enc >>= λ secret. signed_by w secret body signature)
    else ok true

-- the key is the same, it is not empty, and one is stored
abbrev pub has_key_of : World → Option Sender → (api_key : String) → Bool
has_key_of w c api_key =
    str_eq (or_no_key (stored_key w c)) api_key
    && not (str_eq api_key "")
    && is_some (stored_key w c)

abbrev pub if_signed : World → Option Sender → Request → Bytes → Result (Option Sender)
if_signed w none req body = ok none
if_signed w (some c) req body =
    is_signed w c body req.x_webhook_signature >>= λ good. ok (if good then some c else none)

abbrev pub vouched : World → Option Sender → Request → Bytes → Result (Option Sender)
vouched w c req body = if has_key_of w c req.x_api_key then if_signed w c req body else ok none

-- `_cabinet_authenticated`; `none` is the refusal
unfoldable pub authenticated : World → Store → ℕ → Request → Bytes → Result (Option Sender)
authenticated w db id req body = vouched w (sender_at id db) req body

abbrev pub is_session_event : String → Bool
is_session_event e = mentions e ("session_activated" ∷ "telemetry" ∷ "session_ended" ∷ [])

abbrev pub is_alarm_event : String → Bool
is_alarm_event e = mentions e (
    "hardware_alarm" ∷ "breaker_alarm" ∷ "meter_load_auto_stop" ∷ "meter_load_critical"
    ∷ "valve_flow_warning" ∷ "marina_door" ∷ [])

abbrev pub shape_of : World → (why : String) → Json → Shape
shape_of w why (obj fs) = record {
  why = why;
  event = cut 60 (w.text_of (get_json "event" (entries fs)));
  keys = take 20 (sorted (map (cut 40) (keys (entries fs))));
}
shape_of w why v = record { why = why; event = cut 60 (w.text_of null); keys = [] }

-- `_refuse_shape`
abbrev pub refuse_shape : World → Sender → (why : String) → Json → Time → Store → Answer
refuse_shape w c why payload now db = (
  refused 422 why,
  record db {
    sync_log =
        record {
          marina_id = c.marina_id;
          sync_type = "webhook.cabinet";
          status = "error";
          at = now;
          shape = shape_of w why payload;
        }
        ∷ db.sync_log;
  },
)

-- a session event: the log row and the session, in one commit
abbrev pub cabinet_of : Sender → Cabinet
cabinet_of c = record { id = c.id; display_id = c.display_id }

abbrev pub logged_session :
    Sender → (event : String) → (payload : Json) → Time → Store → Result (Applied × Db) → Answer
logged_session c event payload now db (raise e) = (raised e, db)
logged_session c event payload now db (ok (word, erp)) = (
  received event (some (session_logged word)),
  record db {
    session_log =
        record {
          marina_id = c.marina_id;
          pedestal_id = pos c.pedestal_pk;
          session_data = payload;
          recorded_at = now;
        }
        ∷ db.session_log;
    erp = erp;
  },
)

abbrev pub take_session :
    World → Sender → (event : String) → (payload body : Json) → Time → Store → Answer
take_session w c event payload body now db =
    logged_session c event payload now db (apply w.from_iso db.erp (cabinet_of c) body false now)

-- `data.get("id")` if it is an int; a Boolean is one
abbrev pub alarm_id : Json → Option ℤ
alarm_id (int n) = some n
alarm_id (bool true) = some (pos 1)
alarm_id (bool false) = some (pos 0)
alarm_id _ = none

abbrev pub same_cabinet : Option ℕ → ℕ → Bool
same_cabinet none id = false
same_cabinet (some n) id = n == id

abbrev pub same_alarm : Option ℤ → ℤ → Bool
same_alarm none id = false
same_alarm (some n) id = eqb_ℤ n id

abbrev pub is_row_of : ℕ → ℤ → AlarmLog → Bool
is_row_of cabinet alarm r = same_cabinet r.cabinet_id cabinet && same_alarm r.cabinet_alarm_id alarm

abbrev pub is_known : ℕ → Option ℤ → List AlarmLog → Bool
is_known cabinet none rows = false
is_known cabinet (some alarm) rows = any (is_row_of cabinet alarm) rows

abbrev pub alarm_row : Sender → Json → Option ℤ → Time → AlarmLog
alarm_row c payload alarm now = record {
  marina_id = c.marina_id;
  pedestal_id = pos c.pedestal_pk;
  alarm_data = payload;
  received_at = now;
  cabinet_id = some c.id;
  cabinet_alarm_id = alarm;
  source = some "webhook";
}

-- `uq_alarm_log_cabinet_alarm` of the table: one row for a cabinet and a number, where both are there
abbrev pub violates_unique : AlarmLog → List AlarmLog → Bool
violates_unique r rows = elim r.cabinet_id [
  | none ↦ false
  | some c ↦ is_known c r.cabinet_alarm_id rows
]

-- the database's insert; `none` is the IntegrityError
abbrev pub insert_alarm : AlarmLog → List AlarmLog → Option (List AlarmLog)
insert_alarm r rows = if violates_unique r rows then none else some (r ∷ rows)

-- the commit, to which `between` has come since the query
abbrev pub commit_alarm : Sender → (event : String) → Json → Option ℤ → Time → Store → Answer
commit_alarm c event payload alarm now db =
    elim (insert_alarm (alarm_row c payload alarm now) db.alarm_log) [
      | none ↦ (received event (some already_known), db)
      | some rows ↦ (received event (some alarm_logged), record db { alarm_log = rows })
    ]

abbrev pub take_alarm :
    Sender → (between : List AlarmLog) → (event : String) → Json → Option ℤ → Time → Store → Answer
take_alarm c between event payload alarm now db =
    if is_known c.id alarm db.alarm_log
    then (received event (some already_known), db)
    else commit_alarm c event payload alarm now (record db { alarm_log = between ++ db.alarm_log })

abbrev pub take_data :
    World
    → Sender
    → (between : List AlarmLog) → (event : String) → (payload body : Json) → (fields : Dict) → Time
    → Store
    → Answer
take_data w c between event payload body fields now db =
    if is_session_event event
    then (if mentions "session_id" (keys fields)
        then take_session w c event payload body now db
        else refuse_shape w c "session event without session_id in data" payload now db)
    else take_alarm c between event payload (alarm_id (get_json "id" fields)) now db

abbrev pub take_object :
    World
    → Sender
    → (between : List AlarmLog) → (event : String) → (payload body : Json) → Time
    → Store
    → Answer
take_object w c between event payload (obj fs) now db =
    take_data w c between event payload (obj fs) (entries fs) now db
take_object w c between event payload v now db = refuse_shape w c "no data object" payload now db

abbrev pub take_event :
    World
    → Sender
    → (between : List AlarmLog) → (event : String) → (payload body : Json) → Time
    → Store
    → Answer
take_event w c between event payload body now db =
    if is_session_event event || is_alarm_event event
    then take_object w c between event payload body now db
    else refuse_shape w c "unknown event" payload now db

abbrev pub take_named :
    World → Sender → (between : List AlarmLog) → (event payload body : Json) → Time → Store → Answer
take_named w c between (str event) payload body now db =
    take_event w c between event payload body now db
take_named w c between v payload body now db = refuse_shape w c "no event" payload now db

-- what an authenticated cabinet sends
unfoldable pub take_payload :
    World → Sender → (between : List AlarmLog) → Json → Time → Store → Answer
take_payload w c between (obj fs) now db =
    take_named w c between (get_json "event" (entries fs)) (obj fs) (get_json "data" (entries fs))
      now db
take_payload w c between v now db = refuse_shape w c "no event" v now db

abbrev pub take_body : World → Sender → (between : List AlarmLog) → Loaded → Time → Store → Answer
take_body w c between (value v) now db = take_payload w c between v now db
take_body w c between bad_json now db = (refused 400 "Invalid JSON payload", db)
take_body w c between (not_read e) now db = (raised e, db)

-- a decoy key is recorded, in its own commit
unfoldable pub record_decoy : World → (api_key : String) → Time → Store → Store
record_decoy w api_key now db = elim (decoy_key w api_key) [
  | none ↦ db
  | some n ↦ record db {
    decoy_hits =
        record { kind = "api_key"; decoy = "api_key#" <> text_of_int (pos n); observed_at = now }
        ∷ db.decoy_hits;
  }
]

abbrev pub answer_to :
    World → (between : List AlarmLog) → Time → Bytes → Store → Result (Option Sender) → Answer
answer_to w between now body db (raise e) = (raised e, db)
answer_to w between now body db (ok none) = (refusal, db)
answer_to w between now body db (ok (some c)) = take_body w c between (w.loads body) now db

abbrev pub take_request :
    World → ℕ → (between : List AlarmLog) → Request → Time → Bytes → Store → Answer
take_request w id between req now body db =
    answer_to w between now body db (authenticated w db id req body)

-- `receive_cabinet_webhook`; `between` is what others add to the alarms between its query and its commit
unfoldable pub receive_cabinet_webhook :
    World → ℕ → (between : List AlarmLog) → Request → Time → Store → Answer
receive_cabinet_webhook w id between req now db =
    capped w req db
      (λ body. take_request w id between req now body (record_decoy w req.x_api_key now db))
