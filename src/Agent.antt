-- ===== src/Agent.antt =====
-- backend/app/agent/rules.py: what the rules share, the findings, their evidence and the marina's
-- hours. The rules themselves stand in the children SignIns, Commands and Doors, and the pass of
-- backend/app/agent/run.py in Pass.
use erp_iot.Base.{
  ℕ, zero, suc, String, Bool, ◌&&◌, ◌/◌, ◌%◌, ◌<>◌, Option, none, some, List, [], ◌∷◌, map, ltb,
  leb, ◌==◌, if◌then◌else◌, str_eq,
}
use erp_iot.Base.Int.{pos}
use erp_iot.Base.Json.{
  Json, null, bool, int, float, str, arr, obj, Items, nil, cons, Dict, entries, sorted, mentions,
}
use erp_iot.Base.Text.{cut, text_of_int}
use erp_iot.Base.Time.{Time, days, hours, minutes}
use erp_iot.Agent.Tables.{Evidence, Severity}
use Prim.Native.String.{count}
pub mod Tables
pub mod SignIns
pub mod Commands
pub mod Doors
pub mod Pass
pub mod Named
pub mod Once
pub mod Opened
pub mod Reported
pub mod Announced
mod Tests

-- sha256 in hex, `isoformat` of a time and of its date, `lower`, `upper` and `repr` of a text,
-- `json.loads`, `json.dumps`, and the hour of day of a zone that the host knows
pub record World : Type 0 where
  pub sha256_hex : String → String
  pub iso : Time → String
  pub iso_date : Time → String
  pub lower : String → String
  pub upper : String → String
  pub repr : String → String
  pub loads : String → Option Json
  pub dumps : Json → String
  pub zone : String → Option (Time → ℕ)

-- the working hours of a marina
abbrev pub work_from_hour : ℕ
work_from_hour = 6

abbrev pub work_to_hour : ℕ
work_to_hour = 22

abbrev pub baseline : ℕ
baseline = days 30

abbrev pub spray_accounts : ℕ
spray_accounts = 3

abbrev pub spray_bucket : ℕ
spray_bucket = minutes 15

abbrev pub quote_max : ℕ
quote_max = 500

pub record Finding : Type 0 where
  pub rule_id : String
  pub case_key : String
  pub severity : Severity
  pub title : String
  pub why : String
  pub evidence : List Evidence
  pub window_from : Time
  pub window_to : Time
  pub simulated : Bool

abbrev pub fingerprint : World → Finding → String
fingerprint w f = w.sha256_hex (f.rule_id <> "|" <> f.case_key)

-- a text longer than the limit is cut there
abbrev pub quote_text : String → String
quote_text s = if leb (count s) quote_max then s else cut quote_max s <> "…"

mutual
  pub quote : World → Json → Json
  quote w null = null
  quote w (bool b) = bool b
  quote w (int n) = int n
  quote w (float x) = float x
  quote w (str s) = str (quote_text s)
  quote w (arr xs) = arr (quote_items w 50 xs)
  quote w (obj fs) = str (quote_text (w.dumps (obj fs)))

  pub quote_items : World → (limit : ℕ) → Items → Items
  quote_items w zero xs = nil
  quote_items w (suc limit) nil = nil
  quote_items w (suc limit) (cons x xs) = cons (quote w x) (quote_items w limit xs)

abbrev pub as_dict_loaded : Option Json → Dict
as_dict_loaded (some (obj fs)) = entries fs
as_dict_loaded _ = []

-- JSON columns come back as text on SQLite
unfoldable pub as_dict : World → Json → Dict
as_dict w (obj fs) = entries fs
as_dict w (str s) = as_dict_loaded (w.loads s)
as_dict w _ = []

-- `sorted({...})` of numbers and of texts
abbrev pub insert_id : ℕ → List ℕ → List ℕ
insert_id n [] = n ∷ []
insert_id n (m ∷ ms) =
    let rest = insert_id n ms in if n == m then m ∷ ms else if ltb n m then n ∷ m ∷ ms else m ∷ rest

abbrev pub sorted_ids : List ℕ → List ℕ
sorted_ids [] = []
sorted_ids (n ∷ ns) = insert_id n (sorted_ids ns)

abbrev pub without_repeats : List String → List String
without_repeats [] = []
without_repeats (s ∷ ss) =
    let rest = without_repeats ss in if mentions s rest then rest else s ∷ rest

abbrev pub sorted_set : List String → List String
sorted_set ss = sorted (without_repeats ss)

abbrev pub quoted_fields : World → Dict → Dict
quoted_fields w fields = map (λ e. (e.0, quote w e.1)) fields

-- a time is written out by `isoformat`, and never cut
abbrev pub quote_time : World → Option Time → Json
quote_time w none = null
quote_time w (some at) = str (w.iso at)

-- `_ev`
abbrev pub ev :
    World → (source : String) → (rows : List ℕ) → Dict → (observed_at : Option Time) → Evidence
ev w source rows fields observed_at = record {
  source = source;
  row_ids = sorted_ids rows;
  fields = quoted_fields w fields;
  observed_at = quote_time w observed_at;
}

abbrev pub json_of : Option String → Json
json_of none = null
json_of (some s) = str s

abbrev pub items_of : List String → Items
items_of [] = nil
items_of (s ∷ ss) = cons (str s) (items_of ss)

abbrev pub texts : List String → Json
texts ss = arr (items_of ss)

-- `str` of a number
abbrev pub number : ℕ → String
number n = text_of_int (pos n)

-- an f-string prints `None` for a missing text
abbrev pub printed : Option String → String
printed none = "None"
printed (some s) = s

abbrev utc_hour : Time → ℕ
utc_hour at = at / hours 1 % 24

abbrev hour_in : World → Time → String → Option (Time → ℕ) → ℕ × String
hour_in w at name none = (utc_hour at, "UTC (zone " <> w.repr name <> " unknown to this host)")
hour_in w at name (some hour) = (hour at, name)

-- the hour in the zone of the marina, or in UTC, and the zone that was used
abbrev pub local_hour : World → Time → (tz_name : String) → ℕ × String
local_hour w at tz_name =
    let name = if str_eq tz_name "" then "UTC" else tz_name in
    if str_eq (w.upper name) "UTC" then (utc_hour at, "UTC") else hour_in w at name (w.zone name)

module _ {ℓ κ} {A : Type ℓ} {B : Type κ} where
  -- what a loop with `continue` appends
  abbrev pub collect : (A → Option B) → List A → List B
  collect f [] = []
  collect f (x ∷ xs) = elim (f x) [ none ↦ collect f xs | some y ↦ y ∷ collect f xs ]

-- `BETWEEN since AND now`
abbrev pub in_window : (since now at : Time) → Bool
in_window since now at = leb since at && leb at now
