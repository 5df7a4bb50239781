-- ===== src/Base/Json.antt =====
-- JSON values as Python holds them after `json.loads`, and dictionaries with text keys.
-- A float is a signed number of ten-thousandths; a cabinet sends no more decimals than that.
use Prim.Native.Nat.{ℕ, zero, suc, ◌+◌, ◌-◌, ◌*◌, ◌/◌, Ordering}
use Prim.Native.Char.{code}
use Prim.Native.String.{String, compare}
use mathlib.Core.Bool.{Bool, true, false, not, ◌&&◌, ◌||◌}
use mathlib.Core.Option.{Option, none, some}
use mathlib.Core.List.{List, [], ◌∷◌, map}
use text.Mathlib.Text.{◌==◌ as str_eq}
use mathlib.Core.Option
use mathlib.Core.Path.{◌≡◌, refl}
use erp_iot.Base.Tests.{◌==◌, leb, if◌then◌else◌}
use erp_iot.Base.Lists.{any}
use erp_iot.Base.Int.{ℤ, pos, negsuc}

mutual
  pub data Json : Type 0 where
    null : Json
    bool : Bool → Json
    int : ℤ → Json
    float : ℤ → Json
    str : String → Json
    arr : Items → Json
    obj : Fields → Json

  pub data Items : Type 0 where
    nil : Items
    cons : Json → Items → Items

  pub data Fields : Type 0 where
    end : Fields
    field : String → Json → Fields → Fields

abbrev pub Dict : Type 0
Dict = List (String × Json)

-- the keys and values of an object, in order
abbrev pub entries : Fields → Dict
entries end = []
entries (field k v fs) = (k, v) ∷ entries fs

abbrev pub keys : Dict → List String
keys d = map (λ e. e.0) d

module _ {ℓ} {V : Type ℓ} where
  -- `d.get(k)`
  abbrev pub get : String → List (String × V) → Option V
  get k [] = none
  get k ((j, v) ∷ d) = if str_eq j k then some v else get k d

-- `d.get(k)` where a missing key is the same as `None`
abbrev pub get_json : String → Dict → Json
get_json k d = elim (get k d) [ none ↦ null | some v ↦ v ]

-- `k in names`
abbrev pub mentions : String → List String → Bool
mentions k names = any (λ n. str_eq n k) names

abbrev pub is_null : Json → Bool
is_null null = true
is_null _ = false

-- `v == "text"`
abbrev pub is_text : String → Json → Bool
is_text s (str t) = str_eq t s
is_text s _ = false

abbrev is_zero : ℤ → Bool
is_zero (pos zero) = true
is_zero _ = false

-- `bool(v)`
abbrev pub truthy : Json → Bool
truthy null = false
truthy (bool b) = b
truthy (int n) = not (is_zero n)
truthy (float x) = not (is_zero x)
truthy (str s) = not (str_eq s "")
truthy (arr nil) = false
truthy (arr (cons _ _)) = true
truthy (obj end) = false
truthy (obj (field _ _ _)) = true

-- `v or None`
abbrev pub or_null : Json → Json
or_null v = if truthy v then v else null

-- a frozenset refuses a list or a dictionary: TypeError
abbrev pub is_hashable : Json → Bool
is_hashable (arr _) = false
is_hashable (obj _) = false
is_hashable _ = true

-- `sorted` on texts, by insertion
abbrev pub insert_sorted : String → List String → List String
insert_sorted s [] = s ∷ []
insert_sorted s (t ∷ ts) = elim (compare s t) [
  | Ordering.gt ↦ t ∷ insert_sorted s ts
  | _ ↦ s ∷ t ∷ ts
]

abbrev pub sorted : List String → List String
sorted [] = []
sorted (s ∷ ss) = insert_sorted s (sorted ss)

-- ten-thousandths of a whole number
abbrev pub scale : ℤ → ℤ
scale (pos n) = pos (n * 10000)
scale (negsuc n) = negsuc (n * 10000 + 9999)

-- `int(x)` of a float drops the decimals, towards zero
abbrev pub truncate : ℤ → ℤ
truncate (pos n) = pos (n / 10000)
truncate (negsuc n) = let m = suc n / 10000 in if m == 0 then pos 0 else negsuc (m - 1)

abbrev codes : String → List ℕ
codes String.[] = []
codes (String.◌∷◌ c s) = code c ∷ codes s

abbrev is_space : ℕ → Bool
is_space c = c == 32 || leb 9 c && leb c 13

abbrev strip_front : List ℕ → List ℕ
strip_front [] = []
strip_front (c ∷ cs) = if is_space c then strip_front cs else c ∷ cs

abbrev only_spaces : ℕ → List ℕ → Option ℕ
only_spaces n [] = some n
only_spaces n (c ∷ cs) = if is_space c then only_spaces n cs else none

-- digits with single underscores between them, then only spaces; `after` is true behind a digit
abbrev digits_from : ℕ → Bool → List ℕ → Option ℕ
digits_from acc after [] = if after then some acc else none
digits_from acc after (c ∷ cs) =
    let digit = digits_from (acc * 10 + (c - 48)) true cs in
    let underscore = digits_from acc false cs in
    if leb 48 c && leb c 57
    then digit
    else if after && c == 95
    then underscore
    else if after
    then only_spaces acc (c ∷ cs)
    else none

abbrev negate : ℕ → ℤ
negate n = if n == 0 then pos 0 else negsuc (n - 1)

abbrev signed : List ℕ → Option ℤ
signed [] = none
signed (c ∷ cs) =
    if c == 45
    then Option.map negate (digits_from 0 false cs)
    else Option.map pos (digits_from 0 false (if c == 43 then cs else c ∷ cs))

-- `int(s)` of a text with ASCII digits
unfoldable pub int_of_text : String → Option ℤ
int_of_text s = signed (strip_front (codes s))

int_of_text_tests :
    (int_of_text " -12_0 " ≡ some (negsuc 119))
    × (int_of_text "+7" ≡ some (pos 7))
    × (int_of_text "1__0" ≡ none)
    × (int_of_text "" ≡ none)
unfolding int_of_text
int_of_text_tests = (refl, refl, refl, refl)
