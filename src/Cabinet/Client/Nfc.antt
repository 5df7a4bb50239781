-- ===== src/Cabinet/Client/Nfc.antt =====
-- backend/app/cabinet/client.py: channel B, the NFC calls with the X-API-Key.
use erp_iot.Base.{
  ℕ, zero, suc, ◌+◌, String, Bool, true, false, not, ◌&&◌, Option, none, some, ltb, leb, ◌==◌,
  if◌then◌else◌, str_eq,
}
use erp_iot.Base.Json.{Json}
use erp_iot.Base.Text.{or_blank}
use erp_iot.Cabinet.Contract.{Method}
use erp_iot.Cabinet.Outcomes
use erp_iot.Cabinet.Outcomes.{
  Code, Content, json, bytes, Outcome, classify_409, classify_400, cabinet_auth_failed, not_enabled,
  not_found, erp_bug, capability_unavailable, no_contact,
}
use erp_iot.Cabinet.Client.State.{World, Reply, Exchange, failed, answered, Client}
use erp_iot.Cabinet.Client.Writes.{attempts, slept, Call, outcome}
use erp_iot.Cabinet.Client.Answer.{Verdict, done, again, crashed, detail, http_error}

abbrev pub nfc_call : String → Call
nfc_call key = record { key = key; method = Method.post; cache_key = ""; has_db = false }

abbrev pub nfc_success : Call → Reply → Option Json → Verdict
nfc_success call r none = crashed
nfc_success call r (some v) =
    done (record (outcome Outcomes.ok call (some r.status) none) { content = some (json v) })

-- the answer of one attempt of `_nfc`
unfoldable pub nfc_handle : World → Call → Reply → Verdict
nfc_handle w call r =
    let s = r.status in
    let d = detail w r in
    if leb 200 s && ltb s 300
    then nfc_success call r r.parsed
    else if s == 401
    then done (outcome cabinet_auth_failed call (some 401) (some d))
    else if s == 409
    then done (outcome (classify_409 d) call (some 409) (some d))
    else if s == 404
    then done (outcome not_found call (some 404) (some d))
    else if s == 503
    then done (outcome capability_unavailable call (some 503) (some d))
    else if leb 500 s
    then again (http_error s d)
    else done (outcome erp_bug call (some s) (some d))

abbrev pub nfc_exchange : World → Call → Exchange → Verdict
nfc_exchange w call (failed e) = again e
nfc_exchange w call (answered r) = nfc_handle w call r

-- the loop of `_nfc`
unfoldable pub nfc_retry : World → Call → ℕ → Option String → Client → Option Outcome × Client
nfc_retry w call zero last_error c = (some (outcome no_contact call none last_error), c)
nfc_retry w call (suc left) last_error c =
    let c' = record c { requests = c.requests + 1; step = c.step + 1 } in
    elim (nfc_exchange w call (w.reply c.step)) [
      | done o ↦ (some o, c')
      | again e ↦ nfc_retry w call left (some e) (slept left c')
      | _ ↦ (none, c')
    ]

abbrev pub has_key : Option String → Bool
has_key none = false
has_key (some s) = not (str_eq s "")

-- `_nfc`
unfoldable pub nfc : World → String → Client → Option Outcome × Client
nfc w key c = if has_key c.erp_api_key then nfc_retry w (nfc_call key) attempts none c else (
  some (outcome capability_unavailable (nfc_call key) none (some "no X-API-Key configured")),
  c,
)

-- `is_missing_route`
abbrev is_not_found : Code → Bool
is_not_found not_found = true
is_not_found _ = false

abbrev pub is_missing_route : Outcome → Bool
is_missing_route o = is_not_found o.code && str_eq (or_blank o.cabinet_detail) "Not Found"
