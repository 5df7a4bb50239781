-- ===== src/Cabinet/SessionPayload.antt =====
-- backend/app/cabinet/session_payload.py: the parsed session and `parse_session`. Registers and
-- figures are ten-thousandths of a kWh or of a litre (Base.Json), compared as doubles (Doubles); a finding is a constructor with
-- the values that its detail text quotes.
use mathlib.Core.Option
use erp_iot.Base.{
  ℕ, zero, suc, ◌+◌, ◌<>◌, String, Bool, true, false, not, ◌&&◌, ◌||◌, Option, none, some, List, [],
  ◌∷◌, ◌++◌, length, select, any, ltb, is_some, if◌then◌else◌, str_eq, starts_with,
}
use erp_iot.Base.Int.{ℤ, pos, ◌-ℤ◌, abs}
use erp_iot.Base.Json.{
  Json, null, bool, int, float, str, arr, obj, Dict, entries, keys, get, get_json, mentions,
  is_null, is_text, or_null, is_hashable, sorted, scale, truncate, int_of_text,
}
pub mod Results
pub mod Prices
pub mod Billable
mod Doubles
mod Tests
pub use Results.*
unfoldable pub use Doubles.*

-- `CONTRACT_KEYS`
abbrev pub contract_keys : List String
contract_keys =
    "session_id" ∷ "cabinet_id" ∷ "socket_id" ∷ "session_type" ∷ "customer_id" ∷ "status"
    ∷ "activated_at" ∷ "duration_minutes" ∷ "energy_kwh" ∷ "water_liters" ∷ "meter_energy_start_kwh"
    ∷ "meter_energy_end_kwh" ∷ "meter_water_start_l" ∷ "meter_water_end_l" ∷ "consumption_source"
    ∷ "power_kw_current" ∷ []

-- `OPTIONAL_KEYS`
abbrev pub optional_keys : List String
optional_keys = "erp_ref" ∷ []

-- `PRICE_KEYS`
abbrev pub price_keys : List String
price_keys = "estimated_cost" ∷ "cost" ∷ "price" ∷ "amount" ∷ []

-- `CONSUMPTION_SOURCES`
abbrev pub consumption_sources : List String
consumption_sources = "register" ∷ "integrated_legacy" ∷ "unknown" ∷ []

-- `_OUTLET_RE`, by what it matches: in Python `$` also stands before a final line feed
abbrev pub outlet_texts : List String
outlet_texts =
    "Q1" ∷ "Q2" ∷ "Q3" ∷ "Q4" ∷ "V1" ∷ "V2" ∷ "Q1\n" ∷ "Q2\n" ∷ "Q3\n" ∷ "Q4\n" ∷ "V1\n" ∷ "V2\n"
    ∷ []

pub data Medium : Type 0 where
  electricity water : Medium

pub data Finding : Type 0 where
  price_field_dropped : ℕ → Finding
  unknown_keys : List String → Finding
  cross_medium_figure : String → Medium → Finding
  unknown_consumption_source : Json → Finding
  figure_null measurement_missing approximate_figure recompute_impossible : Medium → Finding
  recompute_mismatch : Medium → (figure delta : ℤ) → Finding

pub record ParsedSession : Type 0 where
  pub cabinet_session_id : ℤ
  pub cabinet_display_id : Json
  pub outlet_name : Option String
  pub session_type : Medium
  pub customer_id : Json
  pub status : Json
  pub activated_at : Json
  pub duration_minutes : Option ℤ
  pub consumption : Option ℤ
  pub meter_start : Option ℤ
  pub meter_end : Option ℤ
  pub consumption_source : Json
  pub power_kw_current : Option ℤ
  pub manual_review : Bool
  pub findings : List Finding
  pub erp_ref : Json

unfoldable pub billable : ParsedSession → Bool
billable p = is_text "ended" p.status && not p.manual_review && is_some p.consumption

-- `_num`
unfoldable pub num : Json → String → Result (Option ℤ)
num null key = ok none
num (int n) key = ok (some (scale n))
num (float x) key = ok (some x)
num _ key = raise (payload_error (not_a_number key))

-- `payload[key]`
abbrev pub item : Dict → String → Result Json
item payload key = or_raise (get key payload) key_error

-- `{k: v for k, v in raw.items() if k not in PRICE_KEYS}`
unfoldable pub without_prices : Dict → Dict
without_prices raw = select (λ e. not (mentions e.0 price_keys)) raw

-- `len(PRICE_KEYS & raw.keys())`
unfoldable pub dropped_prices : Dict → ℕ
dropped_prices raw = length (select (λ k. mentions k (keys raw)) price_keys)

abbrev pub price_findings : ℕ → List Finding
price_findings zero = []
price_findings (suc n) = price_field_dropped (suc n) ∷ []

-- `CONTRACT_KEYS - ({"customer_id"} if "erp_ref" in payload else set())`
abbrev pub required : Dict → List String
required payload =
    if mentions "erp_ref" (keys payload)
    then select (λ k. not (str_eq k "customer_id")) contract_keys
    else contract_keys

abbrev pub missing_keys : Dict → List String
missing_keys payload = sorted (select (λ k. not (mentions k (keys payload))) (required payload))

abbrev pub extra_keys : Dict → List String
extra_keys payload =
    sorted (
      select (λ k. not (mentions k contract_keys) && not (mentions k optional_keys)) (keys payload))

abbrev pub key_findings : List String → List Finding
key_findings [] = []
key_findings (k ∷ ks) = unknown_keys (k ∷ ks) ∷ []

unfoldable pub parse_medium : Json → Result Medium
parse_medium v =
    if is_text "electricity" v
    then ok electricity
    else if is_text "water" v
    then ok water
    else raise (payload_error bad_session_type)

-- the first letter of the outlets of a medium
abbrev pub letter : Medium → String
letter electricity = "Q"
letter water = "V"

unfoldable pub is_outlet : String → Bool
is_outlet s = any (λ t. str_eq t s) outlet_texts

unfoldable pub parse_outlet : Medium → Json → Result (Option String)
parse_outlet medium null = ok none
parse_outlet medium (str s) =
    if is_outlet s
    then (if starts_with s (letter medium)
        then ok (some s)
        else raise (payload_error outlet_mismatch))
    else raise (payload_error bad_outlet)
parse_outlet medium _ = raise (payload_error bad_outlet)

abbrev pub figure_key : Medium → String
figure_key electricity = "energy_kwh"
figure_key water = "water_liters"

abbrev pub start_key : Medium → String
start_key electricity = "meter_energy_start_kwh"
start_key water = "meter_water_start_l"

abbrev pub end_key : Medium → String
end_key electricity = "meter_energy_end_kwh"
end_key water = "meter_water_end_l"

abbrev pub other_key : Medium → String
other_key electricity = "water_liters"
other_key water = "energy_kwh"

-- a figure of the other medium
abbrev pub cross_findings : Medium → Json → List Finding
cross_findings medium other =
    if is_null other then [] else cross_medium_figure (other_key medium) medium ∷ []

abbrev pub is_known_source : Json → Bool
is_known_source (str s) = mentions s consumption_sources
is_known_source _ = false

unfoldable pub source_findings : Json → Result (List Finding)
source_findings source =
    if is_null source
    then ok []
    else if not (is_hashable source)
    then raise type_error
    else if is_known_source source
    then ok []
    else ok (unknown_consumption_source source ∷ [])

-- the three tests of an ended session: each finding sends the session to review
unfoldable pub ended_findings : Medium → Json → Option ℤ → Json → List Finding
ended_findings medium status figure source =
    if is_text "ended" status
    then (if is_some figure then [] else figure_null medium ∷ [])
      ++ (if is_text "unknown" source then measurement_missing medium ∷ [] else [])
      ++ (if is_text "integrated_legacy" source then approximate_figure medium ∷ [] else [])
    else []

-- the figure against the two registers: each finding sends the session to review
unfoldable pub recompute_findings : Medium → Option ℤ → Option ℤ → Option ℤ → List Finding
recompute_findings medium none start end = []
recompute_findings medium (some figure) (some start) (some end) =
    if is_mismatch figure start end
    then recompute_mismatch medium figure (end -ℤ start) ∷ []
    else []
recompute_findings medium (some figure) _ _ = recompute_impossible medium ∷ []

abbrev pub is_nonempty : List Finding → Bool
is_nonempty [] = false
is_nonempty _ = true

-- `int(v)`
unfoldable pub int_of : Json → Result ℤ
int_of (bool true) = ok (pos 1)
int_of (bool false) = ok (pos 0)
int_of (int n) = ok n
int_of (float x) = ok (truncate x)
int_of (str s) = or_raise (int_of_text s) value_error
int_of _ = raise type_error

-- Everything behind the price filter.
unfoldable pub parse_payload : Dict → Result ParsedSession
unfolding parse_medium is_outlet parse_outlet num source_findings ended_findings recompute_findings
    int_of
parse_payload payload = do
  guard_empty (missing_keys payload)
  medium ← parse_medium (← item payload "session_type")
  outlet ← parse_outlet medium (← item payload "socket_id")
  figure ← num (← item payload (figure_key medium)) (figure_key medium)
  start ← num (← item payload (start_key medium)) (start_key medium)
  end ← num (← item payload (end_key medium)) (end_key medium)
  other ← item payload (other_key medium)
  source ← item payload "consumption_source"
  sources ← source_findings source
  status ← item payload "status"
  let ended = ended_findings medium status figure source
  let recompute = recompute_findings medium figure start end
  session_id ← int_of (← item payload "session_id")
  cabinet_id ← item payload "cabinet_id"
  activated_at ← item payload "activated_at"
  duration ← num (← item payload "duration_minutes") "duration_minutes"
  power ← num (← item payload "power_kw_current") "power_kw_current"
  ok (record {
    cabinet_session_id = session_id;
    cabinet_display_id = cabinet_id;
    outlet_name = outlet;
    session_type = medium;
    customer_id = get_json "customer_id" payload;
    status = status;
    activated_at = activated_at;
    duration_minutes = duration;
    consumption = figure;
    meter_start = start;
    meter_end = end;
    consumption_source = source;
    power_kw_current = power;
    manual_review = is_nonempty ended || is_nonempty recompute;
    findings =
        key_findings (extra_keys payload)
        ++ cross_findings medium other
        ++ sources
        ++ ended
        ++ recompute;
    erp_ref = or_null (get_json "erp_ref" payload);
  })

-- the finding about the dropped prices stands first
abbrev pub with_dropped : ℕ → ParsedSession → ParsedSession
with_dropped n p = record p { findings = price_findings n ++ p.findings }

unfoldable pub parse_dict : Dict → Result ParsedSession
unfolding parse_payload without_prices dropped_prices
parse_dict raw = do p ← parse_payload (without_prices raw); ok (with_dropped (dropped_prices raw) p)

unfoldable pub parse_session : Json → Result ParsedSession
unfolding parse_dict
parse_session (obj fs) = parse_dict (entries fs)
parse_session _ = raise (payload_error not_an_object)
