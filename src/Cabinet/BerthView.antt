-- ===== src/Cabinet/BerthView.antt =====
-- backend/app/cabinet/berth_view.py with the two lookups of backend/app/cabinet/cabinet_config.py: the
-- rows of JSON that the cabinet sent, each with the exception of a value of another type. `str` of a
-- value is the argument `text_of`, the ISO parser is `from_iso`.
use erp_iot.Base.{
  ℕ, String, Bool, true, false, not, ◌&&◌, ◌||◌, ◌<>◌, Option, none, some, List, [], ◌∷◌, ◌++◌, map,
  any, first, select, leb, ◌==◌, if◌then◌else◌, is_some, str_eq, starts_with,
}
use erp_iot.Base.Int.{ℤ, pos, eqb_ℤ}
use erp_iot.Base.Json.{
  Json, null, bool, int, float, str, arr, obj, end, Dict, entries, keys, get, get_json, is_text,
  is_null, is_hashable, truthy, scale, mentions,
}
use erp_iot.Base.Text.{text_of_int}
use erp_iot.Base.Time.{Time, older_than}
use erp_iot.Cabinet.BerthStatus.{
  BerthSignals, BerthStatus, compute, default_heartbeat_interval, vessel_fresh_for, StatusCode,
  no_contact, standalone, outlet_silent, Connection, online,
}
use erp_iot.Cabinet.Outcomes.{Outcome, Content, json, bytes, has_data}
use erp_iot.Cabinet.SessionPayload.{
  Result, ok, raise, ◌>>=◌, or_raise, type_error, key_error, attribute_error, value_error, int_of,
  Exception,
}
use erp_iot.Reconciler.Range.{items, letters, iterated, dict_of}
use erp_iot.Sessions.{FromIso, parse_utc}
pub mod Build
pub mod Config
pub mod Fitting
pub mod Live
pub mod Controls
mod Tests

-- `v.get(k)` and `v[k]`
abbrev pub pick : String → Json → Result Json
pick k (obj fs) = ok (get_json k (entries fs))
pick k v = raise attribute_error

abbrev pub fields_of : Json → Result Dict
fields_of (obj fs) = ok (entries fs)
fields_of v = raise type_error

-- equal numbers are one key of a dictionary, whatever their type
abbrev number_of : Json → Option ℤ
number_of (bool true) = some (scale (pos 1))
number_of (bool false) = some (pos 0)
number_of (int n) = some (scale n)
number_of (float x) = some x
number_of v = none

abbrev same_words : Json → Json → Bool
same_words null null = true
same_words (str s) (str t) = str_eq s t
same_words v u = false

abbrev same_numbers : Option ℤ → Option ℤ → Bool → Bool
same_numbers (some m) (some n) words = eqb_ℤ m n
same_numbers none none words = words
same_numbers m n words = false

abbrev pub same_key : Json → Json → Bool
same_key v u = same_numbers (number_of v) (number_of u) (same_words v u)

-- a list or a dictionary is no key
abbrev pub hashed : Json → Result Json
hashed v = if is_hashable v then ok v else raise type_error

-- `_outlet_name`
abbrev pub outlet_name : Json → Result String
outlet_name socket_id = int_of socket_id >>= λ n. ok ("Q" <> text_of_int n)

abbrev or_none : Result (Option Time) → Result (Option Time)
or_none (ok t) = ok t
or_none (raise value_error) = ok none
or_none (raise e) = raise e

abbrev pub parse_iso : FromIso → Json → Result (Option Time)
parse_iso from_iso v = if truthy v then or_none (parse_utc from_iso v) else ok none

pub record CabinetConfig : Type 0 where
  pub device_type : Option String
  pub berth_outlets : List (ℕ × List String)

abbrev is_word : String → Option String → Bool
is_word s none = false
is_word s (some t) = str_eq t s

abbrev pub has_water : CabinetConfig → Bool
has_water config = is_word "full" config.device_type

abbrev pub is_electric : String → Bool
is_electric name = starts_with name "Q"

abbrev listed : List (ℕ × List String) → Json → List String
listed [] bid = []
listed ((k, outs) ∷ rest) bid = if same_key (int (pos k)) bid then outs else listed rest bid

unfoldable pub outlets_for : CabinetConfig → (berth_id : Json) → List String
outlets_for config bid =
    let outs = listed config.berth_outlets bid in
    if has_water config then outs else select is_electric outs

abbrev insert_id : ℕ → List ℕ → List ℕ
insert_id n [] = n ∷ []
insert_id n (m ∷ ms) = let rest = insert_id n ms in if leb n m then n ∷ m ∷ ms else m ∷ rest

abbrev sharing : (outlet : String) → Json → List (ℕ × List String) → List ℕ
sharing outlet bid [] = []
sharing outlet bid ((k, outs) ∷ rest) =
    let others = sharing outlet bid rest in
    if mentions outlet outs && not (same_key (int (pos k)) bid) then insert_id k others else others

unfoldable pub berths_sharing : CabinetConfig → (outlet : String) → (berth_id : Json) → List ℕ
berths_sharing config outlet bid = sharing outlet bid config.berth_outlets

-- the arguments of `build`
pub record Reads : Type 0 where
  pub health : Outcome
  pub berths : Outcome
  pub status : List (Json × Outcome)
  pub load : List (Json × Outcome)
  pub breakers : List (Json × Outcome)
  pub alarms : Option Outcome
  pub sessions : Option Outcome
  pub config : CabinetConfig
  pub controls_enabled : Bool
  pub now : Time
  pub reserved : Option (List Json)

abbrev known : Option Outcome → List Outcome
known none = []
known (some o) = o ∷ []

abbrev outcomes : List (Json × Outcome) → List Outcome
outcomes os = map (λ e. e.1) os

abbrev pub stale_reads : Reads → List Outcome
stale_reads r =
    select (λ o. o.is_stale)
      (r.health ∷ r.berths ∷ known r.alarms
        ++ known r.sessions
        ++ outcomes r.status
        ++ outcomes r.load
        ++ outcomes r.breakers)

abbrev pub data_is_stale : Reads → Bool
data_is_stale r = elim (stale_reads r) [ [] ↦ false | _ ↦ true ]

abbrev earlier : Option Time → Option Time → Option Time
earlier none u = u
earlier t none = t
earlier (some t) (some u) = if leb t u then some t else some u

-- `min(…, default=None)`
abbrev pub oldest : List Outcome → Option Time
oldest [] = none
oldest (o ∷ os) = earlier o.synced_at (oldest os)

-- a dictionary that a read carries, or an empty one
abbrev dict_in : Option Content → Dict
dict_in (some (json (obj fs))) = entries fs
dict_in c = []

abbrev pub dict_data : Outcome → Dict
dict_data o = if has_data o then dict_in o.content else []

abbrev list_in : Option Content → List Json
list_in (some (json (arr vs))) = items vs
list_in c = []

abbrev pub list_data : Outcome → List Json
list_data o = if has_data o then list_in o.content else []

-- `… or []` of a read in a loop; a number, as of bytes, has no `get`
abbrev rows_in : Option Content → Result (List Json)
rows_in none = ok []
rows_in (some (json v)) = iterated v
rows_in (some (bytes [])) = ok []
rows_in (some (bytes (b ∷ bs))) = raise attribute_error

abbrev pub rows_of : Option Outcome → Result (List Json)
rows_of none = ok []
rows_of (some o) = if has_data o then rows_in o.content else ok []

-- a loop over a value that is there
abbrev strictly : Option Json → Result (List Json)
strictly none = ok []
strictly (some null) = raise type_error
strictly (some (bool b)) = raise type_error
strictly (some (int n)) = raise type_error
strictly (some (float x)) = raise type_error
strictly (some v) = iterated v

-- `_sockets`
abbrev pub sockets : Outcome → Result (List Json)
sockets o = if has_data o then (dict_of o.content >>= λ d. strictly (get "sockets" d)) else ok []
