-- ===== src/Cabinet/Client.antt =====
-- backend/app/cabinet/client.py: one call of the cabinet on channel A, by the table of spec 2.5. The
-- clock is read once per attempt; the children hold the state, the answers, the token and channel B.
mod State
mod Writes
mod Answer
mod SignIn
mod Nfc
pub mod Attempts
pub mod Careful
pub mod Cached
mod Tests
pub use State.*
unfoldable pub use Writes.*
unfoldable pub use Answer.*
unfoldable pub use SignIn.*
unfoldable pub use Nfc.*
use mathlib.Core.Option
use erp_iot.Base.{
  ℕ, zero, suc, ◌+◌, ◌-◌, ◌*◌, ◌<>◌, String, Bool, true, false, not, ◌&&◌, ◌||◌, Option, none, some,
  List, [], ◌∷◌, ltb, leb, ◌==◌, first, map, if◌then◌else◌, str_eq,
}
use erp_iot.Base.Json.{Json, null, str, obj, entries, get, truthy, is_null, is_text, sorted}
use erp_iot.Base.Text.{cut, or_blank}
use erp_iot.Base.Time.{Time, minutes, hours}
use erp_iot.Cabinet.Contract.{Method, Params, Built, find_endpoint, build_path}
use erp_iot.Cabinet.Outcomes
use erp_iot.Cabinet.Outcomes.{
  Code, Content, json, bytes, Outcome, classify_409, classify_400, cabinet_auth_failed, not_enabled,
  not_found, erp_bug, capability_unavailable, no_contact,
}

abbrev send : World → Call → Time → Client → Exchange → Verdict × Client
send w call now c (failed e) = (again e, c)
send w call now c (answered r) = handle w call now r c

abbrev sent : Client → Client
sent c = record c { requests = c.requests + 1 }

abbrev with_token : World → Call → Time → Token → Client → Verdict × Client
with_token w call now (held t) c = send w call now (sent c) (w.reply c.step)
with_token w call now (unreached e) c = (again e, c)
with_token w call now denied c = (
  done (outcome cabinet_auth_failed call (some 401) none),
  logged call error (some "service-token refused") (marked call error c),
)
with_token w call now broken c = (crashed, c)

abbrev stepped : Verdict × Client → Verdict × Client
stepped (v, c) = (v, record c { step = c.step + 1 })

-- one pass of the loop: the token, the request, the answer
unfoldable pub round : World → Call → Client → Verdict × Client
round w call c =
    let now = w.clock c.step in
    let (token, c') = token_now w now c in stepped (with_token w call now token c')

-- how the loop ends: by a return, by its test with the last error, or by an exception
pub data End : Type 0 where
  returned : Outcome → End
  exhausted : Option String → End
  raised : End

abbrev drop_token : Client → Client
drop_token c = record c { token = none; token_expires = none }

-- what the loop does with a pass that leaves `left` attempts, behind the re-login: a second 401 ends
-- the call; `rest` is the loop itself
abbrev continue_relogged :
    Call → ℕ → (Option String → Client → End × Client) → Verdict × Client → End × Client
continue_relogged call left rest (done o, c) = (returned o, c)
continue_relogged call left rest (again e, c) = rest (some e) (slept left c)
continue_relogged call left rest (relogin d, c) = (
  returned (outcome cabinet_auth_failed call (some 401) (some d)),
  logged call error (prefixed "401" d) (marked call error c),
)
continue_relogged call left rest (crashed, c) = (raised, c)

-- the loop after the one re-login
unfoldable pub retry_relogged : World → Call → ℕ → Option String → Client → End × Client
retry_relogged w call zero last_error c = (exhausted last_error, c)
retry_relogged w call (suc left) last_error c =
    continue_relogged call left (λ e c'. retry_relogged w call left e c') (round w call c)

-- the same before it: the first 401 drops the token and does not count as an attempt; `relogged` is
-- the loop after it
abbrev continue :
    ℕ
    → (Option String → Client → End × Client)
    → (Client → End × Client)
    → Verdict × Client
    → End × Client
continue left rest relogged (done o, c) = (returned o, c)
continue left rest relogged (again e, c) = rest (some e) (slept left c)
continue left rest relogged (relogin d, c) = relogged (drop_token c)
continue left rest relogged (crashed, c) = (raised, c)

-- the loop of `call`
unfoldable pub retry : World → Call → ℕ → Option String → Client → End × Client
retry w call zero last_error c = (exhausted last_error, c)
retry w call (suc left) last_error c =
    continue left (λ e c'. retry w call left e c') (retry_relogged w call (suc left) last_error)
      (round w call c)

-- an exception of the call itself is `none`
abbrev unreachable : Call → Option String → Outcome
unreachable call last_error = record (outcome no_contact call none last_error) { is_stale = true }

abbrev stale_outcome : Call → Option String → Json × Time → Outcome
stale_outcome call last_error (v, at) = record (outcome Outcomes.stale call none last_error) {
  content = some (json v);
  is_stale = true;
  synced_at = some at;
}

-- the last words of a call that reached nothing, with the cached entry of a read
abbrev settle : Call → Option String → Client → Option (Json × Time) → Outcome × Client
settle call message c none = (unreachable call message, c)
settle call message c (some entry) =
    (stale_outcome call message entry, logged call Status.stale none (marked call Status.stale c))

-- behind the loop: the cache of a read, or no contact
unfoldable pub given_up : Call → Option String → Client → Outcome × Client
given_up call message c =
    settle call message (logged call error message (marked call error c))
      (if is_get call.method then fetch call c.cache else none)

abbrev finish : Call → End × Client → Option Outcome × Client
finish call (returned o, c) = (some o, c)
finish call (exhausted message, c) = let (o, c') = given_up call message c in (some o, c')
finish call (raised, c) = (none, c)

-- `is_known_not_enabled`
abbrev pub is_known_not_enabled : Client → String → Time → Bool
is_known_not_enabled c key now = elim (get key c.not_enabled_until) [
  | none ↦ false
  | some until ↦ ltb now until
]

-- `call`, behind `build_path`
unfoldable pub perform : World → Call → Client → Option Outcome × Client
perform w call c =
    if is_known_not_enabled c call.key (w.clock c.step)
    then (some (outcome not_enabled call none none), c)
    else finish call (retry w call attempts none c)

-- the query of a read, each value as its text or `None`
abbrev pub Query : Type 0
Query = List (String × Option String)

abbrev names_of : Query → List String
names_of q = map (λ e. e.0) q

abbrev joined : List String → String
joined [] = ""
joined (s ∷ []) = s
joined (s ∷ t ∷ ss) = s <> "&" <> joined (t ∷ ss)

abbrev assignments : Query → List String → List String
assignments q [] = []
assignments q (k ∷ ks) = elim (get k q) [
  | some (some v) ↦ (k <> "=" <> v) ∷ assignments q ks
  | _ ↦ assignments q ks
]

abbrev with_query : String → String → String
with_query s q = if str_eq q "" then s else s <> "?" <> q

-- `cache_key`
unfoldable pub cache_key : String → String → Query → String
cache_key endpoint_key at query =
    with_query (endpoint_key <> ":" <> at) (joined (assignments query (sorted (names_of query))))

abbrev method_of : String → Method
method_of key = elim (find_endpoint key) [ none ↦ Method.get | some e ↦ e.method ]

-- `call`: nothing is sent for a path that the contract refuses
unfoldable pub call_endpoint :
    World → String → Params → Query → (has_db : Bool) → Client → Option Outcome × Client
call_endpoint w key params query has_db c =
    let call : String → Call =
      λ ckey. record { key = key; method = method_of key; cache_key = ckey; has_db = has_db } in
    elim (build_path key params) [
      | Built.refused e ↦
          (some (outcome erp_bug (call "") none (some "refused by the contract")), c)
      | Built.path p ↦ perform w (call (cache_key key p query <> "@" <> c.base_url)) c
    ]
