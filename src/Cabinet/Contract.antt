-- ===== src/Cabinet/Contract.antt =====
-- backend/app/cabinet/contract.py: the table of cabinet calls, the path rule and `build_path`. A
-- path parameter is a whole number, a truth value or a text.
use Prim.Native.Char.{Char, code}
use Prim.Native.String
use erp_iot.Base.{
  ◌<>◌, String, Bool, true, false, not, ◌&&◌, ◌||◌, Option, none, some, List, [], ◌∷◌, map, all,
  first, if◌then◌else◌, str_eq, starts_with, ◌==◌,
}
use erp_iot.Base.Int.{ℤ}
use erp_iot.Base.Json.{get, mentions}
use erp_iot.Base.Text.{occurs, text_of_int}
use erp_iot.Cabinet.SessionPayload.{is_outlet}
pub mod Table
pub mod Paths
mod Tests
pub use Table.{
  Method, post, IdType, pk, pk_or_display, Mode, monitor, bidirectional, Endpoint, never_enable,
}
unfoldable pub use Table.{endpoints}

-- a template, cut at its parameters
pub data Part : Type 0 where
  text : String → Part
  param : String → Part

abbrev one : Char → String
one c = String.◌∷◌ c String.[]

-- the templates by `_PARAM`, which reads `{name}`; `inside` is true between the braces
unfoldable pub parts_from : (inside : Bool) → String → String → List Part
parts_from false acc String.[] = text acc ∷ []
parts_from true acc String.[] = text ("{" <> acc) ∷ []
parts_from false acc (String.◌∷◌ c s) =
    let opened = text acc ∷ parts_from true "" s in
    let more = parts_from false (acc <> one c) s in if code c == b'{' then opened else more
parts_from true acc (String.◌∷◌ c s) =
    let closed = param acc ∷ parts_from false "" s in
    let more = parts_from true (acc <> one c) s in if code c == b'}' then closed else more

unfoldable pub parts : String → List Part
parts path = parts_from false "" path

-- `_PARAM.findall`
abbrev pub names : List Part → List String
names [] = []
names (text _ ∷ ps) = names ps
names (param n ∷ ps) = n ∷ names ps

-- what a cabinet call passes for a parameter
pub data Arg : Type 0 where
  int : ℤ → Arg
  bool : Bool → Arg
  str : String → Arg

abbrev pub Params : Type 0
Params = List (String × Arg)

-- `str(value)`
abbrev pub text_of : Arg → String
text_of (int n) = text_of_int n
text_of (bool true) = "True"
text_of (bool false) = "False"
text_of (str s) = s

pub data ContractError : Type 0 where
  bad_catalog_path unknown_key doubled_ext wrong_params not_a_pk not_an_outlet : ContractError

pub data Built : Type 0 where
  path : String → Built
  refused : ContractError → Built

-- the text behind its first five bytes
abbrev pub behind_api : String → String
behind_api s = String.slice s 5 (String.len s)

-- `external_path`; `none` is the ValueError
unfoldable pub external_path : String → Option String
external_path catalog_path =
    if starts_with catalog_path "/api/ext/"
    then some catalog_path
    else if starts_with catalog_path "/api/"
    then some ("/api/ext/" <> behind_api catalog_path)
    else none

-- `ENDPOINTS.get(key)`
unfoldable pub find_endpoint : String → Option Endpoint
find_endpoint key = first (λ e. str_eq e.key key) endpoints

abbrev pub keys_of : Params → List String
keys_of ps = map (λ p. p.0) ps

-- equality of two sets of names
abbrev pub same_names : List String → List String → Bool
same_names ns ms = all (λ n. mentions n ms) ns && all (λ m. mentions m ns) ms

abbrev pub is_pk : IdType → Bool
is_pk pk = true
is_pk _ = false

abbrev pub is_int : Arg → Bool
is_int (int _) = true
is_int _ = false

abbrev pub is_outlet_arg : Arg → Bool
is_outlet_arg (str s) = is_outlet s
is_outlet_arg _ = false

-- the tests of one parameter; `none` lets it pass
unfoldable pub check_param : IdType → String → Arg → Option ContractError
check_param id_type name value =
    if str_eq name "pedestal_id" && is_pk id_type && not (is_int value)
    then some not_a_pk
    else if (str_eq name "socket_name" || str_eq name "valve_name") && not (is_outlet_arg value)
    then some not_an_outlet
    else none

-- the loop over the parameters: the first error stops it
unfoldable pub check_params : IdType → Params → Option ContractError
check_params id_type [] = none
check_params id_type ((name, value) ∷ ps) = elim (check_param id_type name value) [
  | some e ↦ some e
  | none ↦ check_params id_type ps
]

-- `_PARAM.sub`
abbrev pub filled : Params → List Part → String
filled ps [] = ""
filled ps (text s ∷ parts) = s <> filled ps parts
filled ps (param n ∷ parts) = elim (get n ps) [ some v ↦ text_of v | none ↦ "" ] <> filled ps parts

abbrev pub checked : IdType → Params → String → Built
checked id_type ps p =
    if not (same_names (names (parts p)) (keys_of ps))
    then refused wrong_params
    else elim (check_params id_type ps) [ some e ↦ refused e | none ↦ path (filled ps (parts p)) ]

abbrev pub build_external : IdType → Params → Option String → Built
build_external id_type ps none = refused bad_catalog_path
build_external id_type ps (some p) =
    if occurs "/api/ext/ext/" p then refused doubled_ext else checked id_type ps p

unfoldable pub build_path : String → Params → Built
build_path key ps = elim (find_endpoint key) [
  | none ↦ refused unknown_key
  | some e ↦ build_external e.id_type ps (external_path e.catalog_path)
]

-- `enabled_by_mode`: the keys to enable in one mode
abbrev is_monitor : Mode → Bool
is_monitor monitor = true
is_monitor _ = false

abbrev keys_in : Mode → List Endpoint → List String
keys_in mode [] = []
keys_in mode (e ∷ es) =
    let rest = keys_in mode es in
    if is_monitor e.mode
    then (if is_monitor mode then e.key ∷ rest else rest)
    else (if is_monitor mode then rest else e.key ∷ rest)

unfoldable pub enabled_by_mode : Mode → List String
enabled_by_mode mode = keys_in mode endpoints
