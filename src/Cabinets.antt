-- ===== src/Cabinets.antt =====
-- backend/app/services/cabinets.py: cabinets with their outlets, berths, and which outlet serves which
-- berth. A new key comes from the database and is an argument, as is Fernet; rows that are added stand
-- first, and the keys that rows name are there.
use erp_iot.Base.{
  ℕ, suc, String, Bool, true, false, not, ◌&&◌, ◌||◌, Option, none, some, List, [], ◌∷◌, ◌++◌, map,
  any, all, first, select, length, ltb, ◌==◌, if◌then◌else◌, is_some, str_eq,
}
use erp_iot.Base.Json.{sorted, mentions}
use erp_iot.Base.Text.{strip}
use erp_iot.Base.Time.{Time}
pub mod Single
pub mod Compared
mod Tests

pub data Medium : Type 0 where
  electricity water : Medium

pub data DeviceType : Type 0 where
  full retrofit : DeviceType

pub record Outlet : Type 0 where
  pub id : ℕ
  pub cabinet_id : ℕ
  pub outlet_name : String
  pub medium : Medium
  pub phases : Option ℕ
  pub rated_amps : Option ℕ
  pub rated_lpm : Option ℕ

pub record Berth : Type 0 where
  pub id : ℕ
  pub marina_id : ℕ
  pub berth_number : String
  pub svg_id : Option String
  pub cabinet_id : Option ℕ
  pub cabinet_berth_id : Option ℕ

pub record BerthOutlet : Type 0 where
  pub berth_id : ℕ
  pub outlet_id : ℕ
  pub medium : Medium
  pub source : String
  pub assigned_by : String
  pub assigned_at : Time

-- what the cabinet claims
pub record BerthOutletCabinet : Type 0 where
  pub cabinet_id : ℕ
  pub outlet_name : String
  pub cabinet_berth_id : Option ℕ

pub data State : Type 0 where
  unverifiable in_sync divergent : State

pub record Divergence : Type 0 where
  pub outlet_name : String
  pub erp_berths : List ℕ
  pub cabinet_berths : List ℕ

pub record MappingComparison : Type 0 where
  pub cabinet_id : ℕ
  pub state : State
  pub divergent_rows : List Divergence
  pub checked_at : Time

pub record Cabinet : Type 0 where
  pub id : ℕ
  pub marina_id : ℕ
  pub pedestal_pk : ℕ
  pub display_id : String
  pub device_type : DeviceType
  pub is_simulated : Bool

pub record Store : Type 0 where
  pub cabinets : List Cabinet
  pub outlets : List Outlet
  pub berths : List Berth
  pub berth_outlets : List BerthOutlet
  pub berth_outlets_cabinet : List BerthOutletCabinet
  pub comparisons : List MappingComparison

-- `DomainError`, and the exception of the database for a row that is there twice
pub data Problem : Type 0 where
  no_actor not_linked two_electricity_outlets : Problem
  no_outlet : String → Problem
  outlet_taken : String → Problem
  not_together not_in_marina integrity_error : Problem

pub data Outcome {ℓ} (A : Type ℓ) : Type ℓ where
  refused : Problem → Outcome A
  done : A → Outcome A

infixl 5 ◌>>=◌
abbrev pub ◌>>=◌ {ℓ κ} : {A : Type ℓ} {B : Type κ} → Outcome A → (A → Outcome B) → Outcome B
refused p >>= rest = refused p
done a >>= rest = rest a

-- `_actor`
abbrev stripped : String → Outcome String
stripped s = if str_eq s "" then refused no_actor else done s

abbrev pub actor_of : Option String → Outcome String
actor_of none = refused no_actor
actor_of (some s) = stripped (strip s)

-- `outlet`
abbrev pub has_name : (cabinet : ℕ) → (name : String) → Outlet → Bool
has_name cabinet name o = o.cabinet_id == cabinet && str_eq o.outlet_name name

abbrev found : String → Option Outlet → Outcome Outlet
found name none = refused (no_outlet name)
found name (some o) = done o

abbrev pub outlet : Store → (cabinet : ℕ) → (name : String) → Outcome Outlet
outlet db cabinet name = found name (first (has_name cabinet name) db.outlets)

abbrev pub outlets_named : Store → (cabinet : ℕ) → List String → Outcome (List Outlet)
outlets_named db cabinet [] = done []
outlets_named db cabinet (name ∷ names) =
    outlet db cabinet name >>= λ o. outlets_named db cabinet names >>= λ outs. done (o ∷ outs)

-- `create_berth`
abbrev pub is_of_marina : Store → (marina cabinet : ℕ) → Bool
is_of_marina db marina cabinet = any (λ c. c.id == cabinet && c.marina_id == marina) db.cabinets

abbrev both_or_none : Option ℕ → Option ℕ → Bool
both_or_none none none = true
both_or_none (some c) (some b) = true
both_or_none _ _ = false

abbrev is_linkable : Store → (marina : ℕ) → Option ℕ → Bool
is_linkable db marina none = true
is_linkable db marina (some c) = is_of_marina db marina c

unfoldable pub create_berth :
    (id marina : ℕ)
    → (berth_number : String) → (cabinet_id cabinet_berth_id : Option ℕ) → (svg_id : Option String)
    → Store
    → Outcome Store
create_berth id marina berth_number cabinet_id cabinet_berth_id svg_id db =
    if not (both_or_none cabinet_id cabinet_berth_id)
    then refused not_together
    else if not (is_linkable db marina cabinet_id)
    then refused not_in_marina
    else done (record db {
      berths =
          record {
            id = id;
            marina_id = marina;
            berth_number = berth_number;
            svg_id = svg_id;
            cabinet_id = cabinet_id;
            cabinet_berth_id = cabinet_berth_id;
          }
          ∷ db.berths;
    })

abbrev pub is_electricity : Medium → Bool
is_electricity electricity = true
is_electricity water = false

abbrev pub electric : List Outlet → List Outlet
electric outs = select (λ o. is_electricity o.medium) outs

-- the outlet serves another berth
abbrev pub is_taken : Store → (berth : ℕ) → Outlet → Bool
is_taken db berth o = any (λ r. r.outlet_id == o.id && not (r.berth_id == berth)) db.berth_outlets

abbrev pub untaken : Store → (berth : ℕ) → List Outlet → Outcome (Unit {0})
untaken db berth [] = done tt
untaken db berth (o ∷ outs) =
    let rest = untaken db berth outs in
    if is_taken db berth o then refused (outlet_taken o.outlet_name) else rest

abbrev pub row_of : (berth : ℕ) → (actor source : String) → Time → Outlet → BerthOutlet
row_of berth actor source now o = record {
  berth_id = berth;
  outlet_id = o.id;
  medium = o.medium;
  source = source;
  assigned_by = actor;
  assigned_at = now;
}

abbrev pub without_berth : (berth : ℕ) → List BerthOutlet → List BerthOutlet
without_berth berth rows = select (λ r. not (r.berth_id == berth)) rows

-- the primary key of the berth and the outlet, at the commit
abbrev pub has_repeats : List Outlet → Bool
has_repeats [] = false
has_repeats (o ∷ outs) = any (λ p. p.id == o.id) outs || has_repeats outs

-- which berth of the cabinet an outlet serves, on the ERP's side and on the cabinet's
abbrev pub Claim : Type 0
Claim = String × Option ℕ

abbrev berth_number_of : ℕ → List Berth → Option ℕ
berth_number_of id [] = none
berth_number_of id (b ∷ berths) =
    if b.id == id then b.cabinet_berth_id else berth_number_of id berths

abbrev claims_of_row : Store → (cabinet : ℕ) → BerthOutlet → List Claim
claims_of_row db cabinet r =
    map (λ o. (o.outlet_name, berth_number_of r.berth_id db.berths))
      (select (λ o. o.id == r.outlet_id && o.cabinet_id == cabinet) db.outlets)

abbrev claims_of_rows : Store → (cabinet : ℕ) → List BerthOutlet → List Claim
claims_of_rows db cabinet [] = []
claims_of_rows db cabinet (r ∷ rows) = claims_of_row db cabinet r ++ claims_of_rows db cabinet rows

abbrev pub erp_claims : Store → (cabinet : ℕ) → List Claim
erp_claims db cabinet = claims_of_rows db cabinet db.berth_outlets

abbrev pub cabinet_rows : Store → (cabinet : ℕ) → List BerthOutletCabinet
cabinet_rows db cabinet = select (λ r. r.cabinet_id == cabinet) db.berth_outlets_cabinet

abbrev pub cabinet_claims : Store → (cabinet : ℕ) → List Claim
cabinet_claims db cabinet = map (λ r. (r.outlet_name, r.cabinet_berth_id)) (cabinet_rows db cabinet)

abbrev pub same_berth : Option ℕ → Option ℕ → Bool
same_berth none none = true
same_berth (some m) (some n) = m == n
same_berth _ _ = false

abbrev pub same_claim : Claim → Claim → Bool
same_claim c d = str_eq c.0 d.0 && same_berth c.1 d.1

abbrev pub is_claimed : List Claim → Claim → Bool
is_claimed claims c = any (same_claim c) claims

-- the sets of one outlet differ
abbrev pub named : String → List Claim → List Claim
named name claims = select (λ c. str_eq c.0 name) claims

abbrev pub differs : List Claim → List Claim → (name : String) → Bool
differs ours theirs name =
    not (all (is_claimed theirs) (named name ours) && all (is_claimed ours) (named name theirs))

abbrev pub names_of : List Claim → List String
names_of [] = []
names_of ((name, b) ∷ claims) =
    let rest = names_of claims in if mentions name rest then rest else name ∷ rest

abbrev insert_number : ℕ → List ℕ → List ℕ
insert_number n [] = n ∷ []
insert_number n (m ∷ ms) =
    let rest = insert_number n ms in
    if n == m then m ∷ ms else if ltb n m then n ∷ m ∷ ms else m ∷ rest

abbrev numbers : List Claim → List ℕ
numbers [] = []
numbers ((name, none) ∷ claims) = numbers claims
numbers ((name, some n) ∷ claims) = insert_number n (numbers claims)

abbrev divergence : List Claim → List Claim → (name : String) → Divergence
divergence ours theirs name = record {
  outlet_name = name;
  erp_berths = numbers (named name ours);
  cabinet_berths = numbers (named name theirs);
}

abbrev pub all_names : List Claim → List Claim → List String
all_names ours theirs = sorted (names_of (ours ++ theirs))

abbrev pub divergent_names : List Claim → List Claim → List String
divergent_names ours theirs = select (differs ours theirs) (all_names ours theirs)

abbrev pub state_of : List String → State
state_of [] = in_sync
state_of (name ∷ names) = divergent

-- `Comparison`
abbrev pub Comparison : Type 0
Comparison = State × List Divergence

abbrev pub compared : List Claim → List Claim → Comparison
compared ours [] = (unverifiable, [])
compared ours (c ∷ theirs) =
    let names = divergent_names ours (c ∷ theirs) in
    (state_of names, map (divergence ours (c ∷ theirs)) names)

unfoldable pub comparison : Store → (cabinet : ℕ) → Comparison
comparison db cabinet = compared (erp_claims db cabinet) (cabinet_claims db cabinet)

abbrev with_comparison : Time → (cabinet : ℕ) → Comparison → Store → Store
with_comparison now cabinet c db = record db {
  comparisons =
      record { cabinet_id = cabinet; state = c.0; divergent_rows = c.1; checked_at = now }
      ∷ select (λ m. not (m.cabinet_id == cabinet)) db.comparisons;
}

abbrev pub compare_mapping : Time → (cabinet : ℕ) → Store → Store
compare_mapping now cabinet db = with_comparison now cabinet (comparison db cabinet) db

abbrev pub assign : Time → (cabinet : ℕ) → List BerthOutlet → Store → Store
assign now cabinet rows db = compare_mapping now cabinet (record db { berth_outlets = rows })

abbrev pub written :
    Time → Berth → (cabinet : ℕ) → (actor source : String) → List Outlet → Store → Outcome Store
written now berth cabinet actor source outs db =
    if ltb 1 (length (electric outs))
    then refused two_electricity_outlets
    else (untaken db berth.id (electric outs) >>= λ free.
        if has_repeats outs
        then refused integrity_error
        else done (
            assign now cabinet
              (map (row_of berth.id actor source now) outs
                ++ without_berth berth.id db.berth_outlets)
              db))

abbrev pub linked :
    Time → Berth → Option ℕ → List String → (actor source : String) → Store → Outcome Store
linked now berth none names actor source db = refused not_linked
linked now berth (some cabinet) names actor source db =
    outlets_named db cabinet names >>= λ outs. written now berth cabinet actor source outs db

unfoldable pub set_berth_outlets :
    Time
    → Berth
    → List String
    → (assigned_by : Option String) → (source : String) → Store
    → Outcome Store
set_berth_outlets now berth names assigned_by source db =
    actor_of assigned_by >>= λ actor. linked now berth berth.cabinet_id names actor source db
