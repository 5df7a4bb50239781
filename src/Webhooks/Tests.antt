-- ===== src/Webhooks/Tests.antt =====
-- Webhooks of one cabinet and of one marina, and the theorems at them.
use erp_iot.Base.{
  ℕ, String, ◌≡◌, ◌≢◌, ◌⊎◌, inl, inr, refl, ◌+◌, true, false, none, some, List, [], ◌∷◌, ◌++◌,
  first, any, ◌==◌, ◌&&◌, ◌<>◌, str_eq, not, if◌then◌else◌, is_some,
}
use erp_iot.Base.Int.{pos}
use erp_iot.Base.Json.{Json, int, str, obj, field, end}
use erp_iot.Base.Text.{split_on, strip}
use erp_iot.Base.Time.{hours}
use erp_iot.Cabinet.SessionPayload.{value_error, type_error}
use erp_iot.Sessions.{ErpSession, billed, IsKeyed, row_at}
use erp_iot.Sessions.Samples.{parser, payload, waiting, foreign, db_of}
use erp_iot.Webhooks.{
  Bytes, World, Loaded, value, bad_json, not_read, Request, refused, raised, received, alarm_logged,
  already_known, capped, decoy_key,
}
use erp_iot.Webhooks.Tables.{Sender, Marina, Store}
use erp_iot.Webhooks.Receive.{
  refusal, sender_at, authenticated, record_decoy, take_payload, receive_cabinet_webhook, alarm_row,
}
use erp_iot.Webhooks.Legacy.{receive_webhook, marina_at}
use erp_iot.Webhooks.Authentic.{
  IsAuthentic, IsRefused, SameLogs, receive_cabinet_webhook-IsAuthentic,
}
use erp_iot.Webhooks.Composed.{receive_cabinet_webhook-sessions}
use erp_iot.Webhooks.Closed.{IsSigned, receive_webhook-closed}

-- body 1 is a session that ended, body 2 an alarm, body 3 is no JSON, body 4 an event the ERP does not know
abbrev alarm : Json
alarm =
    obj (
      field "event" (str "hardware_alarm") (field "data" (obj (field "id" (int (pos 77)) end)) end))

abbrev load : Bytes → Loaded
load (n ∷ []) =
    if n == 1
    then value (obj (field "event" (str "session_ended") (field "data" payload end)))
    else (if n == 2
        then value alarm
        else (if n == 4 then value (obj (field "event" (str "boot") end)) else bad_json))
load _ = not_read value_error

abbrev world : World
world = record {
  decrypt = λ s. some s;
  hmac_hex = λ secret body. secret;
  loads = load;
  text_of = λ v. "None";
  float_of_text = λ s. none;
  column_int = λ v. some (pos 3);
  iso = λ t. "t";
  from_iso = parser;
  decoy_api_keys = "bait, trap";
  webhook_max_body_bytes = 2;
}

abbrev sender : Sender
sender = record {
  id = 1;
  marina_id = 6;
  pedestal_pk = 3;
  display_id = "K1";
  webhook_key_enc = some "k";
  webhook_hmac = true;
  webhook_secret_enc = some "s";
}

abbrev store : Store
store = record {
  senders = sender ∷ [];
  marinas = record { id = 6; webhook_secret = some "m" } ∷ [];
  erp = db_of (waiting ∷ foreign ∷ []);
  alarm_log = [];
  session_log = [];
  sync_log = [];
  pedestal_cache = [];
  decoy_hits = [];
}

abbrev request : ℕ → String → String → Request
request n key signature = record {
  content_length = some "1";
  body = n ∷ [];
  x_api_key = key;
  x_webhook_signature = signature;
}

abbrev alarmed : Store
alarmed = record store { alarm_log = alarm_row sender alarm (some (pos 77)) (hours 110) ∷ [] }

alarm_taken :
    receive_cabinet_webhook world 1 [] (request 2 "k" "sha256=s") (hours 110) store
    ≡ (received "hardware_alarm" (some alarm_logged), alarmed)
unfolding receive_cabinet_webhook capped decoy_key record_decoy authenticated take_payload strip
alarm_taken = refl

alarm_again :
    receive_cabinet_webhook world 1 [] (request 2 "k" "sha256=s") (hours 111) alarmed
    ≡ (received "hardware_alarm" (some already_known), alarmed)
unfolding receive_cabinet_webhook capped decoy_key record_decoy authenticated take_payload strip
alarm_again = refl

-- a wrong signature, a wrong key, an unknown cabinet, and a decoy
refusals :
    (receive_cabinet_webhook world 1 [] (request 2 "k" "sha256=x") (hours 110) store
      ≡ (refusal, store))
    × (receive_cabinet_webhook world 1 [] (request 2 "z" "sha256=s") (hours 110) store
        ≡ (refusal, store))
    × (receive_cabinet_webhook world 9 [] (request 2 "k" "sha256=s") (hours 110) store
        ≡ (refusal, store))
    × (receive_cabinet_webhook world 1 [] (request 2 "trap" "") (hours 110) store ≡ (
      refusal,
      record store {
        decoy_hits = record { kind = "api_key"; decoy = "api_key#2"; observed_at = hours 110 } ∷ [];
      },
    ))
unfolding receive_cabinet_webhook capped decoy_key record_decoy authenticated take_payload strip
    erp_iot.Base.Text.text_of_int
refusals = (refl, refl, refl, refl)

-- a signature that is not ASCII raises where the one refusal is meant
signature_raises :
    receive_cabinet_webhook world 1 [] (request 2 "k" "é") (hours 110) store
    ≡ (raised type_error, store)
unfolding receive_cabinet_webhook capped decoy_key record_decoy authenticated take_payload strip
signature_raises = refl

unknown_event : receive_cabinet_webhook world 1 [] (request 4 "k" "sha256=s") (hours 110) store ≡ (
  refused 422 "unknown event",
  record store {
    sync_log =
        record {
          marina_id = 6;
          sync_type = "webhook.cabinet";
          status = "error";
          at = hours 110;
          shape = record { why = "unknown event"; event = "None"; keys = "event" ∷ [] };
        }
        ∷ [];
  },
)
unfolding receive_cabinet_webhook capped decoy_key record_decoy authenticated take_payload strip
unknown_event = refl

receive_cabinet_webhook-IsAuthentic_example :
    let (reply, db') =
      receive_cabinet_webhook world 1 [] (request 1 "k" "sha256=s") (hours 110) store in
    ((c : Sender) × (sender_at 1 store ≡ some c) × IsAuthentic world (request 1 "k" "sha256=s") c)
    ⊎ (IsRefused reply × SameLogs store db')
receive_cabinet_webhook-IsAuthentic_example =
    receive_cabinet_webhook-IsAuthentic world 1 [] (request 1 "k" "sha256=s") (hours 110) store

store-IsKeyed : IsKeyed store.erp.sessions
store-IsKeyed = ((refl, tt), (tt, tt))

waiting_held : row_at 5 store.erp.sessions ≡ some waiting
unfolding row_at
waiting_held = refl

receive_cabinet_webhook-sessions_example :
    let db' = (receive_cabinet_webhook world 1 [] (request 1 "k" "sha256=s") (hours 110) store).1 in
    (s' : ErpSession) × (row_at 5 db'.erp.sessions ≡ some s')
    × (s'.reconciled_at ≡ none)
    × (waiting.billing_state ≡ billed → s' ≡ waiting)
receive_cabinet_webhook-sessions_example =
    receive_cabinet_webhook-sessions world 1 [] (request 1 "k" "sha256=s") (hours 110) store 5
      waiting store-IsKeyed waiting_held

receive_webhook-closed_example :
    ((m : Marina) × (marina_at 6 store ≡ some m) × IsSigned world (request 2 "" "sha256=m") m)
    ⊎ ((receive_webhook world (λ s. s) 6 (request 2 "" "sha256=m") (hours 110) store).1 ≡ store)
receive_webhook-closed_example =
    receive_webhook-closed world (λ s. s) 6 (request 2 "" "sha256=m") (hours 110) store
