-- ===== src/Webhooks.antt =====
-- backend/app/routers/webhooks.py: what both receivers share. The libraries and the settings are the
-- argument `World`; a reply that raises leaves what was committed before.
use erp_iot.Base.{
  ℕ, suc, ◌+◌, String, Bool, true, false, not, ◌&&◌, ◌||◌, ◌<>◌, Option, none, some, List, [], ◌∷◌,
  length, ltb, leb, ◌==◌, if◌then◌else◌, str_eq, select, map,
}
use erp_iot.Base.Int.{ℤ, pos, ltb_ℤ}
use erp_iot.Base.Json.{Json, int_of_text}
use erp_iot.Base.Text.{is_ascii, split_on, strip, or_blank}
use erp_iot.Base.Time.{Time}
use erp_iot.Cabinet.SessionPayload.{Exception, type_error, value_error, Result, ok, raise}
use erp_iot.Sessions.{FromIso, Applied}
use Prim.Native.String.{String}
use Prim.Native.Char.{code}
pub mod Tables
pub mod Receive
pub mod Legacy
pub mod Authentic
pub mod Alarms
pub mod Cases
pub mod Closed
pub mod Composed
mod Tests
pub use Tables.*

abbrev pub Bytes : Type 0
Bytes = List ℕ

-- `json.loads`: a value, a JSONDecodeError, or another exception (bytes that are not UTF-8)
pub data Loaded : Type 0 where
  value : Json → Loaded
  bad_json : Loaded
  not_read : Exception → Loaded

-- Fernet (`none` is the ValueError that `decrypt_password` makes of a bad token), HMAC-SHA256 in hex,
-- `json.loads`, `str` of a value, `float` of a text, the value an Integer column takes for a bound
-- parameter, `isoformat`, and the settings.
pub record World : Type 0 where
  pub decrypt : String → Option String
  pub hmac_hex : (secret : String) → Bytes → String
  pub loads : Bytes → Loaded
  pub text_of : Json → String
  pub float_of_text : String → Option ℤ
  pub column_int : Json → Option ℤ
  pub iso : Time → String
  pub from_iso : FromIso
  pub decoy_api_keys : String
  pub webhook_max_body_bytes : ℕ

pub record Request : Type 0 where
  pub content_length : Option String
  pub body : Bytes
  pub x_api_key : String
  pub x_webhook_signature : String

-- what `stored` says in the answer to a cabinet
pub data Stored : Type 0 where
  session_logged : Applied → Stored
  alarm_logged already_known : Stored

pub data Reply : Type 0 where
  refused : (status : ℕ) → (detail : String) → Reply
  raised : Exception → Reply
  received : (event : String) → Option Stored → Reply

abbrev pub Answer : Type 0
Answer = Reply × Store

-- `hmac.compare_digest` of an ASCII text and another: TypeError unless both are ASCII
abbrev pub compare_digest : (expected given : String) → Result Bool
compare_digest expected given =
    if is_ascii given then ok (str_eq expected given) else raise type_error

abbrev pub signature_of : World → (secret : String) → Bytes → String
signature_of w secret body = "sha256=" <> w.hmac_hex secret body

-- `_verify_signature`
abbrev pub verify_signature : World → (secret : String) → Bytes → (header : String) → Result Bool
verify_signature w secret body header = compare_digest (signature_of w secret body) header

-- `isdigit` of a header, whose characters are those of Latin-1
abbrev is_digit : ℕ → Bool
is_digit c = leb 48 c && leb c 57 || c == 178 || c == 179 || c == 185

abbrev are_digits : String → Bool
are_digits String.[] = true
are_digits (String.◌∷◌ c s) = is_digit (code c) && are_digits s

abbrev pub is_declared : String → Bool
is_declared s = not (str_eq s "") && are_digits s

-- `int(declared) > limit`
abbrev is_above : ℕ → Option ℤ → Result Bool
is_above limit none = raise value_error
is_above limit (some n) = ok (ltb_ℤ (pos limit) n)

abbrev declares_too_much : World → Option String → Result Bool
declares_too_much w none = ok false
declares_too_much w (some s) =
    if is_declared s then is_above w.webhook_max_body_bytes (int_of_text s) else ok false

abbrev too_large : Reply
too_large = refused 413 "Webhook body too large"

-- `_capped_body`, and what runs behind it
unfoldable pub capped : World → Request → Store → (Bytes → Answer) → Answer
unfolding int_of_text
capped w req db rest = elim (declares_too_much w req.content_length) [
  | raise e ↦ (raised e, db)
  | ok true ↦ (too_large, db)
  | ok false ↦
      if ltb w.webhook_max_body_bytes (length req.body) then (too_large, db) else rest req.body
]

-- `_list` of backend/app/services/decoys.py
abbrev listed : String → List String
unfolding strip
listed raw = select (λ s. not (str_eq s "")) (map strip (split_on b',' raw))

-- `decoy_key_name`: the last decoy that is equal, by its number from 1
abbrev decoy_from : ℕ → String → Option ℕ → List String → Option ℕ
decoy_from i key found [] = found
decoy_from i key found (k ∷ ks) = decoy_from (i + 1) key (if str_eq k key then some i else found) ks

unfoldable pub decoy_key : World → String → Option ℕ
unfolding strip
decoy_key w key = decoy_from 1 key none (listed w.decoy_api_keys)
