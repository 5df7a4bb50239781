-- ===== src/Cabinets/Tests.antt =====
-- backend/app/services/cabinets.py: a small marina, and the witnesses.
use erp_iot.Base.{ℕ, String, ◌≡◌, refl, none, some, List, [], ◌∷◌, first, is_some, true, false}
use erp_iot.Base.Text.{strip}
use erp_iot.Cabinets.{
  Medium, electricity, water, full, Outlet, Berth, BerthOutletCabinet, Store, in_sync, divergent,
  unverifiable, Outcome, refused, done, outlet_taken, two_electricity_outlets, no_actor,
  create_berth, set_berth_outlets, comparison, erp_claims, cabinet_claims, not_in_marina,
}
use erp_iot.Cabinets.Single.{IsSingle, set_berth_outlets-IsSingle}
use erp_iot.Cabinets.Compared.{IsWithin, comparison-agree}

abbrev outlet_row : ℕ → String → Medium → Outlet
outlet_row id name medium = record {
  id = id;
  cabinet_id = 3;
  outlet_name = name;
  medium = medium;
  phases = none;
  rated_amps = none;
  rated_lpm = none;
}

abbrev berth_row : ℕ → Berth
berth_row id = record {
  id = id;
  marina_id = 1;
  berth_number = "B";
  svg_id = none;
  cabinet_id = some 3;
  cabinet_berth_id = some id;
}

abbrev claim : String → ℕ → BerthOutletCabinet
claim name berth = record { cabinet_id = 3; outlet_name = name; cabinet_berth_id = some berth }

abbrev marina : List BerthOutletCabinet → Store
marina claims = record {
  cabinets =
      record {
        id = 3;
        marina_id = 1;
        pedestal_pk = 7;
        display_id = "A1";
        device_type = full;
        is_simulated = false;
      }
      ∷ [];
  outlets =
      outlet_row 1 "Q1" electricity ∷ outlet_row 2 "Q2" electricity ∷ outlet_row 5 "V1" water ∷ [];
  berths = berth_row 10 ∷ berth_row 11 ∷ [];
  berth_outlets = [];
  berth_outlets_cabinet = claims;
  comparisons = [];
}

abbrev store_of : Store → Outcome Store → Store
store_of db (done db') = db'
store_of db (refused p) = db

-- the first berth has Q1 and the valve
abbrev first_assigned : List BerthOutletCabinet → Store
first_assigned claims = store_of (marina claims) (
    set_berth_outlets 5 (berth_row 10) ("Q1" ∷ "V1" ∷ []) (some " ana ") "erp_manual"
      (marina claims))

set_berth_outlets_test :
    (set_berth_outlets 6 (berth_row 11) ("Q1" ∷ []) (some "ana") "erp_manual" (first_assigned [])
      ≡ refused (outlet_taken "Q1"))
    × (set_berth_outlets 6 (berth_row 11) ("Q1" ∷ "Q2" ∷ []) (some "ana") "erp_manual" (marina [])
        ≡ refused two_electricity_outlets)
    × (set_berth_outlets 6 (berth_row 11) [] (some " ") "erp_manual" (marina []) ≡ refused no_actor)
unfolding set_berth_outlets strip comparison
set_berth_outlets_test = (refl, refl, refl)

create_berth_test : create_berth 12 2 "C" (some 3) (some 4) none (marina []) ≡ refused not_in_marina
unfolding create_berth
create_berth_test = refl

abbrev agreed : Store
agreed = first_assigned (claim "Q1" 10 ∷ claim "V1" 10 ∷ [])

-- a valve that serves two berths, which the claims of a cabinet have no room for
abbrev shared : Store
shared =
    store_of agreed
      (set_berth_outlets 6 (berth_row 11) ("V1" ∷ []) (some "ana") "erp_manual" agreed)

comparison_test :
    ((comparison (marina []) 3).0 ≡ unverifiable)
    × ((comparison agreed 3).0 ≡ in_sync)
    × ((comparison shared 3).0 ≡ divergent)
unfolding set_berth_outlets strip comparison
comparison_test = (refl, refl, refl)

second_done :
    set_berth_outlets 6 (berth_row 11) ("Q2" ∷ "V1" ∷ []) (some "ana") "erp_manual" agreed
    ≡ done (
        store_of agreed
          (set_berth_outlets 6 (berth_row 11) ("Q2" ∷ "V1" ∷ []) (some "ana") "erp_manual" agreed))
unfolding set_berth_outlets strip comparison
second_done = refl

agreed-IsSingle : IsSingle agreed.berth_outlets
unfolding set_berth_outlets strip comparison
agreed-IsSingle = ((refl, tt), (tt, tt))

set_berth_outlets-IsSingle_example :
    IsSingle
      (store_of agreed (
        set_berth_outlets 6
          (berth_row 11)
          ("Q2" ∷ "V1" ∷ [])
          (some "ana")
          "erp_manual"
          agreed)).berth_outlets
set_berth_outlets-IsSingle_example =
    set_berth_outlets-IsSingle 6 (berth_row 11) ("Q2" ∷ "V1" ∷ []) (some "ana") "erp_manual" agreed
      _ agreed-IsSingle second_done

agreed-in_sync : (comparison agreed 3).0 ≡ in_sync
unfolding set_berth_outlets strip comparison
agreed-in_sync = refl

comparison-agree_example :
    (is_some (first (λ c. true) (cabinet_claims agreed 3)) ≡ true)
    × IsWithin (erp_claims agreed 3) (cabinet_claims agreed 3)
    × IsWithin (cabinet_claims agreed 3) (erp_claims agreed 3)
comparison-agree_example = comparison-agree agreed 3 agreed-in_sync
