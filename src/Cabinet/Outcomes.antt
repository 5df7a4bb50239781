-- ===== src/Cabinet/Outcomes.antt =====
-- backend/app/cabinet/outcomes.py: how a cabinet call ends, and the reading of its 409s and 400s.
use erp_iot.Base.{
  ℕ, String, Bool, true, false, ◌&&◌, ◌||◌, Option, List, is_some, if◌then◌else◌, str_eq,
  starts_with,
}
use erp_iot.Base.Json.{Json}
use erp_iot.Base.Text.{occurs}
use erp_iot.Base.Time.{Time}

pub data Code : Type 0 where
  ok cabinet_auth_failed not_enabled standalone awaiting_plug outlet_busy : Code
  nfc_mapping_mismatch already_ended session_state_changed not_found conflict erp_bug : Code
  capability_unavailable stale no_contact : Code

-- `SENTENCES`
abbrev pub sentence : Code → String
sentence ok = ""
sentence cabinet_auth_failed = "The cabinet does not accept our sign-in."
sentence not_enabled = "This function is not enabled on the cabinet."
sentence standalone =
    "The cabinet is running on its own. Marina staff can control it once it reconnects."
sentence awaiting_plug = "Plug in the cable to start."
sentence outlet_busy = "Someone else is using this outlet right now."
sentence nfc_mapping_mismatch = "The tag does not belong to this outlet — switching on was refused."
sentence already_ended = ""
sentence session_state_changed = "The session changed in the meantime. Refresh the view."
sentence not_found = "The cabinet does not know this record."
sentence conflict = "The cabinet refused the command."
sentence erp_bug = "Technical error, reported."
sentence capability_unavailable = "This feature is not available on the cabinet right now."
sentence stale = "The cabinet is not answering — showing the last known data."
sentence no_contact = "No connection to this cabinet."

-- `NOT_ERRORS`
abbrev pub is_not_error : Code → Bool
is_not_error ok = true
is_not_error already_ended = true
is_not_error standalone = true
is_not_error awaiting_plug = true
is_not_error outlet_busy = true
is_not_error capability_unavailable = true
is_not_error not_enabled = true
is_not_error stale = true
is_not_error _ = false

-- what a successful answer carries: JSON, or the bytes of anything else
pub data Content : Type 0 where
  json : Json → Content
  bytes : List ℕ → Content

pub record Outcome : Type 0 where
  pub code : Code
  pub endpoint_key : String
  pub content : Option Content
  pub http_status : Option ℕ
  pub is_stale : Bool
  pub synced_at : Option Time
  pub cabinet_detail : Option String

abbrev pub is_code_ok : Code → Bool
is_code_ok ok = true
is_code_ok _ = false

abbrev pub is_ok : Outcome → Bool
is_ok o = is_code_ok o.code

abbrev pub carries_data : Code → Bool
carries_data ok = true
carries_data stale = true
carries_data _ = false

-- `Outcome.has_data`, for the JSON in `content`
abbrev pub has_data : Outcome → Bool
has_data o = is_some o.content && carries_data o.code

-- The cabinet's 409s, by their exact text.
unfoldable pub classify_409 : String → Code
classify_409 d =
    if starts_with d "Smart Mode is OFF" || starts_with d "This pedestal is running on its own"
    then standalone
    else if str_eq d "Socket has no plug inserted"
    then awaiting_plug
    else if str_eq d "Session already ended by operator"
    then already_ended
    else if occurs "is already in use" d
        || occurs "already has an active session" d
        || occurs "being held for them" d
    then outlet_busy
    else if starts_with d "NFC tag " && occurs " is mapped to " d
    then nfc_mapping_mismatch
    else conflict

unfoldable pub classify_400 : String → Code
classify_400 d =
    if starts_with d "Session is " && occurs ", expected " d then session_state_changed else erp_bug
