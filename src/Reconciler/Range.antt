-- ===== src/Reconciler/Range.antt =====
-- backend/app/services/reconciler.py: `_range` with its pages, `_by_user`, and `reconcile`.
use erp_iot.Base.{
  ℕ, zero, suc, ◌+◌, ◌-◌, ◌*◌, String, Bool, true, false, not, ◌&&◌, ◌||◌, Option, none, some, List,
  [], ◌∷◌, map, any, is_some, length, leb, ◌==◌, if◌then◌else◌,
}
use erp_iot.Base.Int.{pos_part, neg_part}
use erp_iot.Base.Json.{
  Json, null, bool, int, float, str, arr, obj, Items, nil, cons, Dict, entries, keys, get_json,
  truthy, sorted, mentions,
}
use erp_iot.Base.Time.{Time}
use erp_iot.Cabinet.Outcomes.{Outcome, Content, json, bytes, is_ok}
use erp_iot.Cabinet.Client.{is_missing_route}
use erp_iot.Cabinet.SessionPayload.{Result, ok, raise, ◌>>=◌, type_error, attribute_error}
use erp_iot.Sessions.{ErpSession, SessionStatus, ended, Cabinet, Customer, Db, FromIso}
use erp_iot.Reconciler.{
  range, by_user, Run, Api, Pass, last_good_window_to, window_start, nightly_lookback, pulled,
  refresh_active, ack_billed,
}

-- the limit of a page, which the cabinet keeps to
abbrev pub page : ℕ
page = 100

-- `for x in v`
abbrev pub items : Items → List Json
items nil = []
items (cons v vs) = v ∷ items vs

abbrev pub letters : String → List Json
letters String.[] = []
letters (String.◌∷◌ c s) = str (String.◌∷◌ c String.[]) ∷ letters s

-- `v or []` in a loop
abbrev pub iterated : Json → Result (List Json)
iterated (arr vs) = ok (items vs)
iterated (obj fs) = ok (map (λ k. str k) (keys (entries fs)))
iterated (str s) = ok (letters s)
iterated v = if truthy v then raise type_error else ok []

-- `(out.data or {})`, of which only a dictionary has a `get`
abbrev pub dict_of : Option Content → Result Dict
dict_of none = ok []
dict_of (some (bytes [])) = ok []
dict_of (some (bytes (b ∷ bs))) = raise attribute_error
dict_of (some (json (obj fs))) = ok (entries fs)
dict_of (some (json v)) = if truthy v then raise attribute_error else ok []

abbrev pub sessions_of : Outcome → Result (List Json)
sessions_of out = dict_of out.content >>= λ d. iterated (get_json "sessions" d)

abbrev pub total_of : Outcome → Result Json
total_of out = dict_of out.content >>= λ d. ok (get_json "total" d)

-- `total is not None and offset >= total`
abbrev pub is_reached : ℕ → Json → Result Bool
is_reached offset null = ok false
is_reached offset (int n) = ok (leb (pos_part n) (offset + neg_part n))
is_reached offset (float x) = ok (leb (pos_part x) (offset * 10000 + neg_part x))
is_reached offset (bool true) = ok (leb 1 offset)
is_reached offset (bool false) = ok true
is_reached offset v = raise type_error

abbrev pub with_error : Pass → Pass
with_error p = record p { run = record p.run { has_error = true } }

abbrev pub with_ok : Pass → Pass
with_ok p = record p { run = record p.run { finished_ok = true } }

-- How a part of a run ends: it goes on, it returns, or an exception rolls back to the last commit.
pub data Part : Type 0 where
  going_on : Pass → Part
  returned : Pass → Part
  failed : (committed : Pass) → Part
  out_of_fuel : Part

abbrev pub then_part : Part → (Pass → Part) → Part
then_part (going_on p) rest = rest p
then_part (returned p) rest = returned p
then_part (failed p) rest = failed p
then_part out_of_fuel rest = out_of_fuel

abbrev pub committed_or : Pass → Result Pass → Part
committed_or p (ok q) = going_on q
committed_or p (raise e) = failed p

-- a call of the cabinet, and what runs on its outcome
abbrev pub on_outcome : Pass → Result Outcome → (Outcome → Part) → Part
on_outcome committed (raise e) rest = failed committed
on_outcome committed (ok out) rest = rest out

module _ (from_iso : FromIso) (cab : Cabinet) (now : Time) where
  unfoldable pub pulled_all : List Json → Pass → Result Pass
  pulled_all [] p = ok p
  pulled_all (raw ∷ raws) p = pulled from_iso cab now raw p >>= λ q. pulled_all raws q

  abbrev pub pulled_page : Outcome → Pass → Result Pass
  pulled_page out p = sessions_of out >>= λ raws. pulled_all raws p

  -- `_by_user`: the customers whom the run asks about
  abbrev pub is_open : SessionStatus → Bool
  is_open ended = false
  is_open _ = true

  abbrev pub is_asked : (nightly : Bool) → ErpSession → Bool
  is_asked true s = s.cabinet_id == cab.id && leb (now - nightly_lookback) s.created_at
  is_asked false s = s.cabinet_id == cab.id && (is_open s.status || not (is_some s.reconciled_at))

  abbrev pub belongs_to : Customer → ErpSession → Bool
  belongs_to c s = elim s.customer_id [ none ↦ false | some id ↦ id == c.id ]

  abbrev pub refs_of : (nightly : Bool) → List ErpSession → List Customer → List String
  refs_of nightly rows [] = []
  refs_of nightly rows (c ∷ customers) =
      let rest = refs_of nightly rows customers in
      elim c.external_ref [
        | none ↦ rest
        | some ref ↦
            if any (λ s. is_asked nightly s && belongs_to c s) rows && not (mentions ref rest)
            then ref ∷ rest
            else rest
      ]

  unfoldable pub asked_refs : (nightly : Bool) → Db → List String
  asked_refs nightly db = sorted (refs_of nightly db.sessions db.customers)

  -- one customer: a refusal ends the run, a page is committed
  abbrev pub asked_page : (committed p : Pass) → Outcome → Part
  asked_page committed p out =
      if is_ok out then committed_or committed (pulled_page out p) else returned (with_error p)

  unfoldable pub ask_refs : Api → (committed p : Pass) → List String → Part
  ask_refs api committed p [] = returned (with_ok p)
  ask_refs api committed p (ref ∷ refs) =
      then_part (on_outcome committed (api.by_user_ref ref) (asked_page committed p))
        (λ q. ask_refs api q q refs)

  -- the cabinet has no range: the run becomes one by customers
  abbrev pub as_by_user : Pass → Pass
  as_by_user p = record p {
    run = record p.run { mode = by_user; window_from = none; window_to = none };
  }

  -- behind the commit of a page: the end, or the next page
  abbrev pub turned : (Pass → ℕ → Part) → (reached : ℕ) → Pass → Result Bool → Part
  turned rest reached q (raise e) = failed q
  turned rest reached q (ok true) = going_on q
  turned rest reached q (ok false) = rest q reached

  abbrev pub next_page : (Pass → ℕ → Part) → ℕ → List Json → Outcome → Pass → Part
  next_page rest offset [] out q = going_on q
  next_page rest offset (raw ∷ raws) out q =
      let reached = offset + length (raw ∷ raws) in
      turned rest reached q (total_of out >>= is_reached reached)

  abbrev pub took_page :
      (Pass → ℕ → Part) → ℕ → (committed : Pass) → List Json → Outcome → Result Pass → Part
  took_page rest offset committed raws out (raise e) = failed committed
  took_page rest offset committed raws out (ok q) = next_page rest offset raws out q

  abbrev pub read_page :
      (Pass → ℕ → Part) → ℕ → (committed p : Pass) → Outcome → Result (List Json) → Part
  read_page rest offset committed p out (raise e) = failed committed
  read_page rest offset committed p out (ok raws) =
      took_page rest offset committed raws out (pulled_all raws p)

  abbrev pub on_page :
      Api → (nightly : Bool) → (Pass → ℕ → Part) → ℕ → (committed p : Pass) → Outcome → Part
  on_page api nightly rest offset committed p out =
      if is_missing_route out
      then ask_refs api committed (as_by_user p) (asked_refs nightly p.db)
      else (if is_ok out
          then read_page rest offset committed p out (sessions_of out)
          else returned (with_error p))

  -- the loop over the pages from `frm`, a round of it for each unit of fuel
  unfoldable pub pages :
      Api
      → (nightly : Bool) → (frm : Time) → (fuel : ℕ) → (committed p : Pass) → (offset : ℕ) → Part
  pages api nightly frm zero committed p offset = out_of_fuel
  pages api nightly frm (suc fuel) committed p offset =
      on_outcome committed (api.ended_between frm now offset)
        (on_page api nightly (λ q n. pages api nightly frm fuel q q n) offset committed p)

  abbrev pub with_window : Time → Pass → Pass
  with_window frm p = record p {
    run = record p.run { window_from = some frm; window_to = some now };
  }

  -- behind the pages: the active sessions, then the acknowledgement
  abbrev pub acking : Api → Pass → Part
  acking api r = then_part (committed_or r (ack_billed cab now api r)) (λ t. returned (with_ok t))

  abbrev pub refreshing : Api → Pass → Part
  refreshing api q = then_part (committed_or q (refresh_active from_iso cab now api q)) (acking api)

  -- `_range`
  unfoldable pub range_part : (fuel : ℕ) → Api → (nightly : Bool) → List Run → Pass → Part
  range_part fuel api nightly runs p =
      let frm = window_start nightly now (last_good_window_to runs) in
      then_part (pages api nightly frm fuel p (with_window frm p) 0) (refreshing api)

  abbrev pub finished : Part → Option Pass
  finished (going_on p) = some p
  finished (returned p) = some p
  finished (failed p) =
      some (record p { run = record p.run { finished_ok = false; has_error = true } })
  finished out_of_fuel = none

abbrev pub new_run : Run
new_run = record {
  mode = range;
  window_from = none;
  window_to = none;
  finished_ok = false;
  sessions_seen = 0;
  sessions_updated = 0;
  sessions_unknown = 0;
  sessions_acked = 0;
  has_error = false;
}

-- `reconcile`, of a cabinet with or without a key for channel B; `none` is the end of the fuel
unfoldable pub reconcile :
    FromIso
    → (fuel : ℕ) → Cabinet
    → Api
    → (has_channel_b nightly : Bool) → Time
    → List Run
    → Db
    → Option Pass
reconcile from_iso fuel cab api has_channel_b nightly now runs db =
    let p : Pass = record { db = db; run = new_run } in
    if has_channel_b
    then finished from_iso cab now (range_part from_iso cab now fuel api nightly runs p)
    else some (with_error p)
