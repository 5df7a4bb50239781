-- ===== src/Cabinet/Client/SignIn.antt =====
-- backend/app/cabinet/client.py: `_token_now`, the service token and its expiry.
use erp_iot.Base.{◌+◌, ◌-◌, String, ◌&&◌, Option, none, some, ltb, ◌==◌, if◌then◌else◌}
use erp_iot.Base.Json.{Json, obj, entries, get, truthy}
use erp_iot.Base.Time.{Time}
use erp_iot.Cabinet.Client.State.{World, Exchange, failed, answered, Client}
use erp_iot.Cabinet.Client.Writes.{fallback_token_lifetime, token_margin}
use erp_iot.Cabinet.Client.Answer.{or_none}

-- how `_token_now` ends; `refused` is its `None`
pub data Token : Type 0 where
  held : Json → Token
  unreached : String → Token
  denied broken : Token

abbrev pub cached_token : Time → Client → Option Json
cached_token now c = elim c.token [
  | none ↦ none
  | some t ↦ elim c.token_expires [
    | none ↦ none
    | some at ↦ if truthy t && ltb now at then some t else none
  ]
]

abbrev pub expiry : Time → Option Time → Time
expiry now none = now + fallback_token_lifetime
expiry now (some exp) = exp - token_margin

abbrev pub access_token : Option Json → Option Json
access_token (some (obj fs)) = some (or_none (get "access_token" (entries fs)))
access_token _ = none

abbrev pub accept_token : World → Time → Client → Option Json → Token × Client
accept_token w now c none = (broken, c)
accept_token w now c (some t) =
    if truthy t
    then (held t, record c { token = some t; token_expires = some (expiry now (w.jwt_exp t)) })
    else (denied, c)

abbrev pub token_answer : World → Time → Client → Exchange → Token × Client
token_answer w now c (failed e) = (unreached e, c)
token_answer w now c (answered r) =
    if r.status == 200 then accept_token w now c (access_token r.parsed) else (denied, c)

-- the POST to /api/auth/service-token is a request to the cabinet too
abbrev pub token_asked : Client → Client
token_asked c = record c { requests = c.requests + 1 }

-- `_token_now`
unfoldable pub token_now : World → Time → Client → Token × Client
token_now w now c = elim (cached_token now c) [
  | some t ↦ (held t, c)
  | none ↦ token_answer w now (token_asked c) (w.token_reply c.step)
]
