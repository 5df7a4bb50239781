-- ===== src/Webhooks/Cases.antt =====
-- backend/app/routers/webhooks.py: the answers of the receiver of a cabinet, case by case.
use erp_iot.Base.{
  String, ◌≡◌, refl, ◌∙◌, Bool, true, false, ◌||◌, Option, none, some, List, if◌then◌else◌,
}
use erp_iot.Base.Int.{ℤ, pos}
use erp_iot.Base.Json.{
  Json, null, bool, int, float, str, arr, obj, Dict, entries, keys, get_json, mentions,
}
use erp_iot.Base.Time.{Time}
use erp_iot.Cabinet.SessionPayload.{Result, ok, raise}
use erp_iot.Webhooks.Tables.{Sender, AlarmLog, Store}
use erp_iot.Webhooks.{
  Bytes, World, Loaded, value, bad_json, not_read, Reply, received, alarm_logged, already_known,
  Answer,
}
use erp_iot.Webhooks.Receive.{
  answer_to, take_body, take_payload, take_named, take_object, take_data, take_session, take_alarm,
  alarm_id, is_session_event, is_alarm_event,
}

if_lem {ℓ κ} :
    {A : Type ℓ} (P : A → Type κ) (b : Bool) {x y : A} → P x → P y → P (if b then x else y)
if_lem P true hx hy = hx
if_lem P false hx hy = hy

-- the answers that speak of an alarm
abbrev pub is_sighting : Reply → Bool
is_sighting (received event (some alarm_logged)) = true
is_sighting (received event (some already_known)) = true
is_sighting r = false

-- the value of a field, where there is an object
abbrev pub field_in : String → Json → Json
field_in k (obj fs) = get_json k (entries fs)
field_in k v = null

-- a whole number; a Boolean is one, as in Python
abbrev pub whole_number : Json → Option ℤ
whole_number (int n) = some n
whole_number (bool b) = some (pos (if b then 1 else 0))
whole_number v = none

-- the number that a payload gives to its alarm
abbrev pub told : Json → Option ℤ
told payload = whole_number (field_in "id" (field_in "data" payload))

whole_number-alarm_id : (v : Json) → whole_number v ≡ alarm_id v
whole_number-alarm_id null = refl
whole_number-alarm_id (bool true) = refl
whole_number-alarm_id (bool false) = refl
whole_number-alarm_id (int n) = refl
whole_number-alarm_id (float x) = refl
whole_number-alarm_id (str s) = refl
whole_number-alarm_id (arr vs) = refl
whole_number-alarm_id (obj fs) = refl

module _ {ℓ} (w : World) (between : List AlarmLog) (now : Time) (db : Store) (P : Answer → Type ℓ)
    (IsSender : Sender → Type 0)
    (kept : (r : Reply) (db' : Store)
      → is_sighting r ≡ false
      → db'.erp ≡ db.erp
      → db'.alarm_log ≡ db.alarm_log
      → P (r, db'))
    (session : (c : Sender) (event : String) (payload body : Json)
      → P (take_session w c event payload body now db))
    (alarm : (c : Sender) (event : String) (payload : Json) (id : Option ℤ)
      → IsSender c
      → told payload ≡ id
      → P (take_alarm c between event payload id now db)) where
  take_data_cases :
      (c : Sender) (event : String) (payload body : Json) (fields : Dict)
      → IsSender c
      → told payload ≡ alarm_id (get_json "id" fields)
      → P (take_data w c between event payload body fields now db)
  take_data_cases c event payload body fields g e =
      if_lem P (is_session_event event)
        (if_lem P (mentions "session_id" (keys fields)) (session c event payload body)
          (kept _ _ refl refl refl))
        (alarm c event payload (alarm_id (get_json "id" fields)) g e)

  take_object_cases :
      (c : Sender) (event : String) (payload body : Json)
      → IsSender c
      → told payload ≡ whole_number (field_in "id" body)
      → P (take_object w c between event payload body now db)
  take_object_cases c event payload (obj fs) g e =
      take_data_cases c event payload (obj fs) (entries fs) g
        (e ∙ whole_number-alarm_id (get_json "id" (entries fs)))
  take_object_cases c event payload null g e = kept _ _ refl refl refl
  take_object_cases c event payload (bool b) g e = kept _ _ refl refl refl
  take_object_cases c event payload (int n) g e = kept _ _ refl refl refl
  take_object_cases c event payload (float x) g e = kept _ _ refl refl refl
  take_object_cases c event payload (str s) g e = kept _ _ refl refl refl
  take_object_cases c event payload (arr vs) g e = kept _ _ refl refl refl

  take_named_cases :
      (c : Sender) (event payload body : Json)
      → IsSender c
      → told payload ≡ whole_number (field_in "id" body)
      → P (take_named w c between event payload body now db)
  take_named_cases c (str event) payload body g e =
      if_lem P (is_session_event event || is_alarm_event event)
        (take_object_cases c event payload body g e) (kept _ _ refl refl refl)
  take_named_cases c null payload body g e = kept _ _ refl refl refl
  take_named_cases c (bool b) payload body g e = kept _ _ refl refl refl
  take_named_cases c (int n) payload body g e = kept _ _ refl refl refl
  take_named_cases c (float x) payload body g e = kept _ _ refl refl refl
  take_named_cases c (arr vs) payload body g e = kept _ _ refl refl refl
  take_named_cases c (obj fs) payload body g e = kept _ _ refl refl refl

  take_payload_cases : (c : Sender) (v : Json) → IsSender c → P (take_payload w c between v now db)
  unfolding take_payload
  take_payload_cases c (obj fs) g =
      take_named_cases c (get_json "event" (entries fs)) (obj fs) (get_json "data" (entries fs)) g
        refl
  take_payload_cases c null g = kept _ _ refl refl refl
  take_payload_cases c (bool b) g = kept _ _ refl refl refl
  take_payload_cases c (int n) g = kept _ _ refl refl refl
  take_payload_cases c (float x) g = kept _ _ refl refl refl
  take_payload_cases c (str s) g = kept _ _ refl refl refl
  take_payload_cases c (arr vs) g = kept _ _ refl refl refl

  pub answer_to_cases :
      (body : Bytes) (r : Result (Option Sender))
      → ((c : Sender) → r ≡ ok (some c) → IsSender c)
      → P (answer_to w between now body db r)
  answer_to_cases body (raise e) g = kept _ _ refl refl refl
  answer_to_cases body (ok none) g = kept _ _ refl refl refl
  answer_to_cases body (ok (some c)) g = read (w.loads body)
    where
      read : (l : Loaded) → P (take_body w c between l now db)
      read (value v) = take_payload_cases c v (g c refl)
      read bad_json = kept _ _ refl refl refl
      read (not_read e) = kept _ _ refl refl refl
