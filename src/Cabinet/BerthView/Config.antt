-- ===== src/Cabinet/BerthView/Config.antt =====
-- `load` of backend/app/cabinet/cabinet_config.py and `parse_occupancy` of
-- backend/app/cabinet/berth_view.py: what a marina is set up as, and the three shapes of the occupancy.
-- The joined rows of `load` stand in the order of the outlets' names.
use erp_iot.Base.{
  ℕ, String, ◌≡◌, refl, Bool, true, false, Option, none, some, List, [], ◌∷◌, ◌++◌, any, select,
  ◌==◌, if◌then◌else◌,
}
use erp_iot.Base.Json.{Json, bool, get_json}
use erp_iot.Cabinet.Outcomes.{Content}
use erp_iot.Cabinet.SessionPayload.{Result, ok, ◌>>=◌}
use erp_iot.Cabinet.BerthView.{CabinetConfig, pick}
use erp_iot.Cabinets.{Cabinet, DeviceType, full, retrofit}
use erp_iot.Reconciler.Range.{dict_of, iterated}

-- `mapping.setdefault(berth, []).append(name)`
abbrev onto_berth : ℕ → String → List (ℕ × List String) → List (ℕ × List String)
onto_berth berth name [] = (berth, name ∷ []) ∷ []
onto_berth berth name ((k, names) ∷ rest) =
    let behind = onto_berth berth name rest in
    if k == berth then (k, names ++ name ∷ []) ∷ rest else (k, names) ∷ behind

abbrev pub mapping : List (ℕ × String) → List (ℕ × List String) → List (ℕ × List String)
mapping [] known = known
mapping ((berth, name) ∷ rows) known = mapping rows (onto_berth berth name known)

abbrev is_full : DeviceType → Bool
is_full full = true
is_full retrofit = false

abbrev pub types_of : List Cabinet → Option String
types_of [] = none
types_of (c ∷ cabs) =
    some (if any (λ x. is_full x.device_type) (c ∷ cabs) then "full" else "retrofit")

-- the cabinets of the marina, and the rows of its berths and their outlets
unfoldable pub load : (marina : ℕ) → List Cabinet → (rows : List (ℕ × String)) → CabinetConfig
load marina cabinets rows =
    let cabs = select (λ c. c.marina_id == marina) cabinets in
    elim cabs [
      | [] ↦ record { device_type = none; berth_outlets = [] }
      | c ∷ rest ↦ record { device_type = types_of (c ∷ rest); berth_outlets = mapping rows [] }
    ]

pub record Occupancy : Type 0 where
  pub berth_id : Json
  pub name : Json
  pub occupied : Option Bool
  pub last_analyzed : Json
  pub note : Json

-- anything but a Boolean is not known, never free
abbrev occupied_of : Json → Option Bool
occupied_of (bool b) = some b
occupied_of v = none

abbrev occupancy_row : Json → Result Occupancy
occupancy_row b = do
  occ ← pick "occupied" b
  berth_id ← pick "berth_id" b
  name ← pick "berth_name" b
  last_analyzed ← pick "last_analyzed" b
  note ← pick "note" b
  ok (record {
    berth_id = berth_id;
    name = name;
    occupied = occupied_of occ;
    last_analyzed = last_analyzed;
    note = note;
  })

abbrev occupancy_rows : List Json → Result (List Occupancy)
occupancy_rows [] = ok []
occupancy_rows (b ∷ bs) = occupancy_row b >>= λ row. occupancy_rows bs >>= λ rows. ok (row ∷ rows)

unfoldable pub parse_occupancy : Option Content → Result (List Occupancy)
parse_occupancy body =
    dict_of body >>= λ d. iterated (get_json "berths" d) >>= λ rows. occupancy_rows rows

load_test : load 1 [] ((4, "Q1") ∷ []) ≡ record { device_type = none; berth_outlets = [] }
unfolding load
load_test = refl

mapping_test :
    mapping ((4, "Q1") ∷ (5, "Q2") ∷ (4, "V1") ∷ []) []
    ≡ (4, "Q1" ∷ "V1" ∷ []) ∷ (5, "Q2" ∷ []) ∷ []
mapping_test = refl
