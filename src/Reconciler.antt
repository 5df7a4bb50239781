-- ===== src/Reconciler.antt =====
-- backend/app/services/reconciler.py: one pull of a cabinet's sessions. The client's NFC calls are the
-- argument `Api`, each an outcome or an exception; what an exception leaves is the last commit.
use mathlib.Core.Option
use erp_iot.Base.{
  ℕ, zero, suc, ◌+◌, ◌-◌, ◌*◌, String, Bool, true, false, not, ◌&&◌, ◌||◌, Option, none, some, List,
  [], ◌∷◌, first, map, select, any, is_some, length, ltb, leb, ◌==◌, if◌then◌else◌, str_eq,
}
use Prim.Native.String
use erp_iot.Base.Int.{ℤ, pos, negsuc}
use erp_iot.Base.Json.{
  Json, null, bool, int, float, str, arr, obj, Items, nil, cons, entries, keys, get_json, truthy,
  sorted, mentions,
}
use erp_iot.Base.Time.{Time, minutes, days}
use erp_iot.Cabinet.Outcomes.{Outcome, Content, json, bytes, is_ok}
use erp_iot.Cabinet.Client.{is_missing_route, has_key}
use erp_iot.Cabinet.SessionPayload.{Result, ok, raise, ◌>>=◌, type_error, attribute_error}
use erp_iot.Sessions.{
  ErpSession, SessionStatus, active, ended, BillingState, billed, Cabinet, Customer, Db, FromIso,
  Applied, updated, unknown, already_billed, invalid, apply, is_billed,
}
pub mod Acknowledged
pub mod Range
pub mod Paged
pub mod Keeps
pub mod Kept
pub mod Returns
mod Tests

abbrev pub overlap : ℕ
overlap = minutes 10

abbrev pub first_lookback : ℕ
first_lookback = days 2

abbrev pub nightly_lookback : ℕ
nightly_lookback = days 30

pub data Mode : Type 0 where
  range by_user : Mode

-- `ReconciliationRun`; an error is kept as the fact that there is one
pub record Run : Type 0 where
  pub mode : Mode
  pub window_from : Option Time
  pub window_to : Option Time
  pub finished_ok : Bool
  pub sessions_seen : ℕ
  pub sessions_updated : ℕ
  pub sessions_unknown : ℕ
  pub sessions_acked : ℕ
  pub has_error : Bool

pub record Api : Type 0 where
  pub ended_between : Time → Time → (offset : ℕ) → Result Outcome
  pub by_user_ref : String → Result Outcome
  pub session : ℤ → Result Outcome
  pub ack : List ℤ → Result Outcome

-- `_last_good_window_to`, over the runs of the cabinet, the newest first
abbrev pub is_range : Mode → Bool
is_range range = true
is_range by_user = false

abbrev pub window_of : Option Run → Option Time
window_of none = none
window_of (some r) = r.window_to

unfoldable pub last_good_window_to : List Run → Option Time
last_good_window_to runs = window_of (first (λ r. r.finished_ok && is_range r.mode) runs)

-- where the window of a run starts
unfoldable pub window_start : (nightly : Bool) → Time → Option Time → Time
window_start true now last = now - nightly_lookback
window_start false now (some last) = last - overlap
window_start false now none = now - first_lookback

-- `_count`
unfoldable pub count : Applied → Run → Run
count updated r = record r {
  sessions_seen = r.sessions_seen + 1;
  sessions_updated = r.sessions_updated + 1;
}
count unknown r = record r {
  sessions_seen = r.sessions_seen + 1;
  sessions_unknown = r.sessions_unknown + 1;
}
count _ r = record r { sessions_seen = r.sessions_seen + 1 }

pub record Pass : Type 0 where
  pub db : Db
  pub run : Run

abbrev pub value_of : Option Content → Json
value_of none = null
value_of (some (json v)) = v
value_of (some (bytes _)) = null

-- the session number of a row as it stands
abbrev pub number_at : ℕ → List ErpSession → Option ℤ
number_at k rows = elim (first (λ s. s.id == k) rows) [
  | none ↦ none
  | some s ↦ s.cabinet_session_id
]

module _ (from_iso : FromIso) (cab : Cabinet) (now : Time) where
  -- one payload by the pull, and its word counted
  abbrev pub pulled : Json → Pass → Result Pass
  pulled raw p =
      apply from_iso p.db cab raw true now >>= λ r. ok (record { db = r.1; run = count r.0 p.run })

  -- `_refresh_active`
  abbrev pub refreshed : Outcome → Pass → Result Pass
  refreshed out p = elim (value_of out.content) [
    | obj fs ↦ if is_ok out then pulled (obj fs) p else ok p
    | _ ↦ ok p
  ]

  -- one open row, by the session number that it has by then; no row ever loses its number
  abbrev pub refresh_one : Api → Option ℤ → Pass → Result Pass
  refresh_one api none p = ok p
  refresh_one api (some n) p = api.session n >>= λ out. refreshed out p

  abbrev pub refresh_each : Api → (rows : List ℕ) → Pass → Result Pass
  refresh_each api [] p = ok p
  refresh_each api (k ∷ ks) p =
      refresh_one api (number_at k p.db.sessions) p >>= λ q. refresh_each api ks q

abbrev pub is_active : SessionStatus → Bool
is_active active = true
is_active _ = false

abbrev pub known_ids : List ErpSession → List ℤ
known_ids [] = []
known_ids (s ∷ rows) = elim s.cabinet_session_id [
  | none ↦ known_ids rows
  | some n ↦ n ∷ known_ids rows
]

abbrev pub is_open_row : Cabinet → ErpSession → Bool
is_open_row cab s = s.cabinet_id == cab.id && is_active s.status && is_some s.cabinet_session_id

unfoldable pub refresh_active : FromIso → Cabinet → Time → Api → Pass → Result Pass
refresh_active from_iso cab now api p =
    refresh_each from_iso cab now api (map (λ s. s.id) (select (is_open_row cab) p.db.sessions)) p

-- `_ack`: the rows that are billed and not yet confirmed
abbrev pub is_unconfirmed : Cabinet → ErpSession → Bool
is_unconfirmed cab s =
    s.cabinet_id == cab.id
    && is_billed s.billing_state
    && not (is_some s.ack_sent_at)
    && is_some s.cabinet_session_id

abbrev pub confirmed : Cabinet → Time → ErpSession → ErpSession
confirmed cab now s = if is_unconfirmed cab s then record s { ack_sent_at = some now } else s

abbrev pub acked : Cabinet → Time → (n : ℕ) → Pass → Outcome → Pass
acked cab now n p out = if is_missing_route out || not (is_ok out) then p else record {
  db = record p.db { sessions = map (confirmed cab now) p.db.sessions };
  run = record p.run { sessions_acked = n };
}

abbrev pub ack_ids : Cabinet → Time → Api → Pass → List ℤ → Result Pass
ack_ids cab now api p [] = ok p
ack_ids cab now api p (n ∷ ns) =
    api.ack (n ∷ ns) >>= λ out. ok (acked cab now (length (n ∷ ns)) p out)

unfoldable pub ack_billed : Cabinet → Time → Api → Pass → Result Pass
ack_billed cab now api p =
    ack_ids cab now api p (known_ids (select (is_unconfirmed cab) p.db.sessions))
