-- ===== src/Cabinet/Client/Answer.antt =====
-- backend/app/cabinet/client.py: what an answer of the cabinet means, status by status.
use mathlib.Core.Option
use erp_iot.Base.{
  ℕ, ◌+◌, ◌<>◌, String, Bool, false, ◌&&◌, Option, none, some, ltb, leb, ◌==◌, if◌then◌else◌,
}
use erp_iot.Base.Int.{pos}
use erp_iot.Base.Json.{Json, null, str, obj, entries, get, is_text}
use erp_iot.Base.Text.{cut, text_of_int}
use erp_iot.Base.Time.{Time}
use erp_iot.Cabinet.Outcomes
use erp_iot.Cabinet.Outcomes.{
  Code, Content, json, bytes, Outcome, classify_409, classify_400, cabinet_auth_failed, not_enabled,
  not_found, erp_bug, capability_unavailable, no_contact,
}
use erp_iot.Cabinet.Client.State.{World, Reply, success, error, Client}
use erp_iot.Cabinet.Client.Writes.{
  put, not_enabled_retry, Call, logged, marked, remember, is_success, outcome,
}

abbrev pub or_none : Option Json → Json
or_none none = null
or_none (some v) = v

abbrev pub text_or_dump : World → Json → String
text_or_dump w (str s) = s
text_or_dump w v = cut 500 (w.dumps v)

abbrev pub reason_of : Option Json → Json
reason_of none = str ""
reason_of (some v) = v

abbrev pub detail_or_reason : Option Json → Option Json → Json
detail_or_reason (some v) reason = v
detail_or_reason none reason = reason_of reason

-- `_detail`
abbrev pub detail_of : World → Option Json → String → String
detail_of w (some (obj fs)) body =
    text_or_dump w (detail_or_reason (get "detail" (entries fs)) (get "reason" (entries fs)))
detail_of w _ body = cut 500 body

unfoldable pub detail : World → Reply → String
detail w r = detail_of w r.parsed r.body

-- `_json_or_bytes`; `none` is the JSONDecodeError of a broken JSON body
unfoldable pub content_of : Reply → Option Content
content_of r = if r.says_json then Option.map json r.parsed else some (bytes r.raw)

-- the 503 of a direct route that the operator did not enable
abbrev pub says_not_enabled : Option Json → Bool
says_not_enabled (some (obj fs)) = is_text "Not enabled" (or_none (get "reason" (entries fs)))
says_not_enabled _ = false

-- how one pass of the loop ends; `relogin` is the 401, with its detail
pub data Verdict : Type 0 where
  done : Outcome → Verdict
  again : String → Verdict
  relogin : String → Verdict
  crashed : Verdict

unfoldable pub succeeded : Call → ℕ → Time → Client → Content → Verdict × Client
succeeded call status now c content = (
  done (record (outcome Outcomes.ok call (some status) none) { content = some content }),
  remember call content now (
      marked call success
        (if is_success (get call.key c.last_status) then c else logged call success none c)),
)

abbrev pub block : Call → Time → Client → Client
block call now c = record c {
  not_enabled_until = put call.key (now + not_enabled_retry) c.not_enabled_until;
}

-- the last error of an answer from 500 on
abbrev pub http_error : ℕ → String → String
http_error status detail = "HTTP " <> text_of_int (pos status) <> ": " <> detail

abbrev pub prefixed : String → String → Option String
prefixed code detail = some (code <> " " <> detail)

-- the answers below 500 that are no success, in the order of the source
unfoldable pub refused_by : World → Call → Time → Reply → Client → Verdict × Client
refused_by w call now r c =
    let s = r.status in
    let d = detail w r in
    if s == 401
    then (relogin d, c)
    else if s == 403
    then (
      done (outcome not_enabled call (some 403) (some d)),
      logged call error (prefixed "403" d) (marked call error (block call now c)),
    )
    else if s == 503
    then (if says_not_enabled r.parsed
        then (done (outcome not_enabled call (some 503) (some d)), block call now c)
        else (done (outcome capability_unavailable call (some 503) (some d)), c))
    else if s == 409
    then (done (outcome (classify_409 d) call (some 409) (some d)), c)
    else if s == 400
    then (done (outcome (classify_400 d) call (some 400) (some d)), c)
    else if s == 404
    then (done (outcome not_found call (some 404) (some d)), c)
    else if s == 422
    then (
      done (outcome erp_bug call (some 422) (some d)),
      logged call error (prefixed "422" d) (marked call error c),
    )
    else if leb 500 s
    then (again (http_error s d), c)
    else (done (outcome erp_bug call (some s) (some d)), c)

-- the answer of one attempt
unfoldable pub handle : World → Call → Time → Reply → Client → Verdict × Client
handle w call now r c =
    if leb 200 r.status && ltb r.status 300
    then elim (content_of r) [ none ↦ (crashed, c) | some v ↦ succeeded call r.status now c v ]
    else refused_by w call now r c
