-- ===== src/Cabinet/Client/Writes.antt =====
-- backend/app/cabinet/client.py: the constants, and what a call writes: the status of its key, the
-- sync log and the cache.
use erp_iot.Base.{
  ℕ, zero, suc, String, Bool, true, false, ◌&&◌, Option, none, some, List, [], ◌∷◌, first,
  if◌then◌else◌, str_eq,
}
use erp_iot.Base.Json.{Json, is_null}
use erp_iot.Base.Time.{Time, minutes, hours}
use erp_iot.Cabinet.Contract.{Method}
use erp_iot.Cabinet.Outcomes.{Code, Content, json, bytes, Outcome}
use erp_iot.Cabinet.Client.State.{Status, success, CacheRow, Client}

abbrev pub attempts : ℕ
attempts = 3

abbrev pub not_enabled_retry : ℕ
not_enabled_retry = hours 1

abbrev pub fallback_token_lifetime : ℕ
fallback_token_lifetime = minutes 100

abbrev pub token_margin : ℕ
token_margin = minutes 5

-- `BACKOFF[attempt - 1]`, by the attempts that are left
abbrev pub backoff : ℕ → ℕ
backoff (suc (suc n)) = 1
backoff _ = 2

module _ {V : Type 0} where
  -- `d[k] = v`
  abbrev pub put : String → V → List (String × V) → List (String × V)
  put k v [] = (k, v) ∷ []
  put k v ((j, w) ∷ d) = if str_eq j k then (k, v) ∷ d else (j, w) ∷ put k v d

-- what one call is about; `has_db` is `db is not None`
pub record Call : Type 0 where
  pub key : String
  pub method : Method
  pub cache_key : String
  pub has_db : Bool

abbrev pub is_get : Method → Bool
is_get Method.get = true
is_get Method.post = false

-- `_sync_log`
unfoldable pub logged : Call → Status → Option String → Client → Client
logged call status message c =
    if call.has_db
    then record c {
      sync_log = record { sync_type = call.key; status = status; message = message } ∷ c.sync_log;
    }
    else c

abbrev pub marked : Call → Status → Client → Client
marked call status c = record c { last_status = put call.key status c.last_status }

abbrev pub is_success : Option Status → Bool
is_success (some success) = true
is_success _ = false

-- `_cache_put`: one row for a key
abbrev pub store : String → Json → Time → List CacheRow → List CacheRow
store key v now [] = record { cache_key = key; last_seen = v; last_synced_at = now } ∷ []
store key v now (r ∷ rows) =
    if str_eq r.cache_key key
    then record r { last_seen = v; last_synced_at = now } ∷ rows
    else r ∷ store key v now rows

abbrev pub seen : CacheRow → Option (Json × Time)
seen r = if is_null r.last_seen then none else some (r.last_seen, r.last_synced_at)

-- `_cache_get`
abbrev pub fetch : Call → List CacheRow → Option (Json × Time)
fetch call rows =
    if call.has_db
    then elim (first (λ r. str_eq r.cache_key call.cache_key) rows) [
      | none ↦ none
      | some r ↦ seen r
    ]
    else none

unfoldable pub remember : Call → Content → Time → Client → Client
remember call (bytes _) now c = c
remember call (json v) now c =
    if is_get call.method && call.has_db
    then record c { cache = store call.cache_key v now c.cache }
    else c

abbrev pub outcome : Code → Call → Option ℕ → Option String → Outcome
outcome code call status detail = record {
  code = code;
  endpoint_key = call.key;
  content = none;
  http_status = status;
  is_stale = false;
  synced_at = none;
  cabinet_detail = detail;
}

-- the sleep behind a failed attempt, of which `left` remain
abbrev pub slept : ℕ → Client → Client
slept zero c = c
slept (suc left) c = record c { waits = backoff (suc left) ∷ c.waits }
