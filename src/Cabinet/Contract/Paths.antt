-- ===== src/Cabinet/Contract/Paths.antt =====
-- Which paths `build_path` can make.
use erp_iot.Base.{
  ◌≡◌, ◌≢◌, ◌⊎◌, inl, inr, refl, sym, ◌∙◌, ap, String, Bool, true, false, not, ◌&&◌, Option, none,
  some, List, [], ◌∷◌, arith, All, all, first-All, first-passes, Option-cases, Bool-cases, str_eq,
  eq_iff,
}
use erp_iot.Base.Int.{ℤ}
use erp_iot.Base.Json.{get, mentions}
use erp_iot.Base.Text.{occurs}
use erp_iot.Cabinet.SessionPayload.{is_outlet}
use erp_iot.Cabinet.Contract.{
  Endpoint, IdType, pk, never_enable, endpoints, Arg, int, bool, str, Params, ContractError,
  bad_catalog_path, doubled_ext, unknown_key, path, refused, external_path, find_endpoint,
  is_outlet_arg, check_param, check_params, checked, build_external, build_path,
}

-- No row of the table has a forbidden key, and each has a path that the prefix rule accepts.
abbrev is_routed : Option String → Bool
is_routed none = false
is_routed (some p) = not (occurs "/api/ext/ext/" p)

abbrev is_allowed : Endpoint → Bool
is_allowed e = not (mentions e.key never_enable) && is_routed (external_path e.catalog_path)

rows_allowed : all is_allowed endpoints ≡ true
unfolding endpoints external_path
rows_allowed = refl

all-All {ℓ} : {A : Type ℓ} (p : A → Bool) (xs : List A) → all p xs ≡ true → All (λ x. p x ≡ true) xs
all-All p [] h = tt
all-All p (x ∷ xs) h = elim (Bool-cases (p x)) [
  | inl b ↦ (b, all-All p xs (ground arith))
  | inr b ↦ ground arith
]

find_endpoint-allowed :
    (key : String) (e : Endpoint) → find_endpoint key ≡ some e → is_allowed e ≡ true
unfolding find_endpoint
find_endpoint-allowed key e h =
    first-All (λ x. is_allowed x ≡ true) (λ x. str_eq x.key key) endpoints e
      (all-All is_allowed endpoints rows_allowed) h

allowed-routed :
    (e : Endpoint) → is_allowed e ≡ true → is_routed (external_path e.catalog_path) ≡ true
allowed-routed e h = ground arith

find_endpoint-key : (key : String) (e : Endpoint) → find_endpoint key ≡ some e → e.key ≡ key
unfolding find_endpoint
find_endpoint-key key e h =
    (eq_iff e.key key).0 (first-passes (λ x. str_eq x.key key) endpoints e h)

-- A key of the list of forbidden calls is refused as unknown, with any parameters.
pub build_path-never_enable :
    (key : String) (ps : Params)
    → mentions key never_enable ≡ true
    → build_path key ps ≡ refused unknown_key
unfolding build_path
build_path-never_enable key ps h = elim (Option-cases (find_endpoint key)) [
  | inl e ↦ rw (e, build_path) refl
  | inr (e, f) ↦
      let k : mentions e.key never_enable ≡ true = rw (find_endpoint-key key e f) h in
      let a = find_endpoint-allowed key e f in ground arith
]

check_param-kinds :
    (t : IdType) (n : String) (v : Arg) (x : ContractError)
    → check_param t n v ≡ some x
    → (x ≢ bad_catalog_path) × (x ≢ doubled_ext)
unfolding check_param
check_param-kinds t n v x h = ground arith

check_params-fails :
    (t : IdType) (ps : Params) (x : ContractError)
    → check_params t ps ≡ some x
    → (x ≢ bad_catalog_path) × (x ≢ doubled_ext)
unfolding check_params
check_params-fails t [] x h = ground arith
check_params-fails t ((n, v) ∷ ps) x h = elim (Option-cases (check_param t n v)) [
  | inl e ↦ check_params-fails t ps x (ground arith)
  | inr (y, e) ↦ check_param-kinds t n v x (ground arith)
]

checked-routed :
    (t : IdType) (ps : Params) (p : String)
    → (checked t ps p ≢ refused bad_catalog_path) × (checked t ps p ≢ refused doubled_ext)
checked-routed t ps p = elim (Option-cases (check_params t ps)) [
  | inl e ↦ rw e (ground arith)
  | inr (x, e) ↦ rw e (ground (arith, check_params-fails t ps x e))
]

build_external-routed :
    (t : IdType) (ps : Params) (p : Option String)
    → is_routed p ≡ true
    → (build_external t ps p ≢ refused bad_catalog_path)
      × (build_external t ps p ≢ refused doubled_ext)
build_external-routed t ps none h = ground arith
build_external-routed t ps (some p) h = ground (arith, checked-routed t ps p)

-- No call fails for its own catalog path: whatever the key and the parameters, `build_path` never
-- meets a path outside `/api/` and never a doubled prefix.
pub build_path-routed :
    (key : String) (ps : Params)
    → (build_path key ps ≢ refused bad_catalog_path) × (build_path key ps ≢ refused doubled_ext)
unfolding build_path
build_path-routed key ps = elim (Option-cases (find_endpoint key)) [
  | inl e ↦ rw (e, build_path) (ground arith)
  | inr (e, f) ↦
      rw (f, build_path)
        (build_external-routed e.id_type ps (external_path e.catalog_path)
          (allowed-routed e (find_endpoint-allowed key e f)))
]

check_params-passes :
    (t : IdType) (ps : Params) (name : String) (v : Arg)
    → check_params t ps ≡ none
    → get name ps ≡ some v
    → check_param t name v ≡ none
unfolding check_params
check_params-passes t [] name v h g = ground arith
check_params-passes t ((n, w) ∷ ps) name v h g =
    ground (arith, eq_iff n name, check_params-passes t ps name v)

checked-passes :
    (t : IdType) (ps : Params) (p s : String) → checked t ps p ≡ path s → check_params t ps ≡ none
checked-passes t ps p s h = elim (Option-cases (check_params t ps)) [
  | inl e ↦ e
  | inr (x, e) ↦ ground arith
]

build_external-passes :
    (t : IdType) (ps : Params) (p : Option String) (s : String)
    → build_external t ps p ≡ path s
    → check_params t ps ≡ none
build_external-passes t ps none s h = ground arith
build_external-passes t ps (some p) s h = ground (arith, checked-passes t ps p s)

built-checked :
    (key : String) (ps : Params) (s : String) (e : Endpoint)
    → build_path key ps ≡ path s
    → find_endpoint key ≡ some e
    → check_params e.id_type ps ≡ none
unfolding build_path
built-checked key ps s e b f =
    build_external-passes e.id_type ps (external_path e.catalog_path) s (built f b)
  where
    built :
        find_endpoint key ≡ some e
        → build_path key ps ≡ path s
        → build_external e.id_type ps (external_path e.catalog_path) ≡ path s
    built f b = ground arith

pk_int :
    (t : IdType) (v : Arg) → t ≡ pk → check_param t "pedestal_id" v ≡ none → (n : ℤ) × (v ≡ int n)
unfolding check_param
pk_int t (int n) h c = (n, refl)
pk_int t (bool b) h c = ground arith
pk_int t (str s) h c = ground arith

socket_outlet :
    (t : IdType) (v : Arg) → check_param t "socket_name" v ≡ none → is_outlet_arg v ≡ true
unfolding check_param
socket_outlet t v c = elim (Bool-cases (is_outlet_arg v)) [ inl e ↦ e | inr e ↦ ground arith ]

valve_outlet : (t : IdType) (v : Arg) → check_param t "valve_name" v ≡ none → is_outlet_arg v ≡ true
unfolding check_param
valve_outlet t v c = elim (Bool-cases (is_outlet_arg v)) [ inl e ↦ e | inr e ↦ ground arith ]

outlet_of_arg :
    (v : Arg) → is_outlet_arg v ≡ true → (o : String) × (v ≡ str o) × (is_outlet o ≡ true)
outlet_of_arg (int n) h = ground arith
outlet_of_arg (bool b) h = ground arith
outlet_of_arg (str s) h = (s, refl, h)

outlet_only :
    (t : IdType) (name : String) (v : Arg)
    → (name ≡ "socket_name") ⊎ (name ≡ "valve_name")
    → check_param t name v ≡ none
    → is_outlet_arg v ≡ true
outlet_only t name v (inl e) c = socket_outlet t v (ap (λ n. check_param t n v) (sym e) ∙ c)
outlet_only t name v (inr e) c = valve_outlet t v (ap (λ n. check_param t n v) (sym e) ∙ c)

-- In a path that `build_path` makes for a call by primary key, the pedestal is a whole number and
-- never a display name.
pub build_path-pedestal :
    (key : String) (ps : Params) (s : String) (e : Endpoint) (v : Arg)
    → build_path key ps ≡ path s
    → find_endpoint key ≡ some e
    → e.id_type ≡ pk
    → get "pedestal_id" ps ≡ some v
    → (n : ℤ) × (v ≡ int n)
unfolding check_param
build_path-pedestal key ps s e v b f t g =
    let c = check_params-passes e.id_type ps "pedestal_id" v (built-checked key ps s e b f) g in
    pk_int e.id_type v t c

-- A socket or a valve in a path that `build_path` makes is one of the six outlets of a pedestal.
pub build_path-outlet :
    (key : String) (ps : Params) (s name : String) (e : Endpoint) (v : Arg)
    → build_path key ps ≡ path s
    → find_endpoint key ≡ some e
    → (name ≡ "socket_name") ⊎ (name ≡ "valve_name")
    → get name ps ≡ some v
    → (o : String) × (v ≡ str o) × (is_outlet o ≡ true)
build_path-outlet key ps s name e v b f n g =
    let c = check_params-passes e.id_type ps name v (built-checked key ps s e b f) g in
    outlet_of_arg v (outlet_only e.id_type name v n c)
