-- ===== src/Cabinet/BerthView/Fitting.antt =====
-- backend/app/cabinet/berth_view.py: the controls of an outlet are those of its switch.
use erp_iot.Base.{
  String, ◌≡◌, refl, Bool, true, Option, none, some, List, [], ◌∷◌, ◌++◌, All, Bool-cases, inl, inr,
}
use erp_iot.Base.Json.{Json, Dict}
use erp_iot.Cabinet.SessionPayload.{Ensures, returned, Ensures-elim, >>=-Ensures}
use erp_iot.Cabinet.BerthView.{Reads, is_electric, hashed}
use erp_iot.Cabinet.BerthView.Build.{
  Tables, Command, controls_for, Switch, OutletRow, controls_of, Reading, switch_of, electric_row,
  outlet_row, outlet_rows, outlet_rows_of, load_of, electricity_reading,
}

append-All {ℓ κ} :
    {A : Type ℓ} (P : A → Type κ) (xs ys : List A) → All P xs → All P ys → All P (xs ++ ys)
append-All P [] ys g h = h
append-All P (x ∷ xs) ys (k, g) h = (k, append-All P xs ys g h)

-- No commands, or those of the switch in a state that allows them.
abbrev pub IsGuarded : (Allowed : Type 0) → Switch → Option (List Command) → Type 0
IsGuarded Allowed switch none = Unit {0}
IsGuarded Allowed switch (some cs) = (cs ≡ controls_for switch) × Allowed

abbrev pub IsFit : (controllable : Bool) → Switch → Option (List Command) → Type 0
IsFit controllable switch controls = IsGuarded (controllable ≡ true) switch controls

module _ (r : Reads) (t : Tables) (pk bid : Json) (controllable : Bool) where
  abbrev RowFit : OutletRow → Type 0
  RowFit o = IsFit controllable o.switch o.controls

  controls_of-IsFit :
      (switch : Switch) → IsFit controllable switch (controls_of r t pk bid controllable switch)
  controls_of-IsFit switch = elim (Bool-cases controllable) [
    | inl b ↦ rw b (refl, refl)
    | inr b ↦ rw b tt
  ]

  electric_row-Ensures :
      (name : String) (reading : Reading)
      → Ensures RowFit (electric_row r t pk bid controllable name reading)
  electric_row-Ensures name reading =
      >>=-Ensures (hashed reading.state) _
        (λ state e. returned (controls_of-IsFit (switch_of state)))

  outlet_rows_of-Ensures :
      (name : String) (load : Option Dict)
      → Ensures (All RowFit) (outlet_rows_of r t pk bid controllable name load)
  outlet_rows_of-Ensures name none = returned tt
  outlet_rows_of-Ensures name (some load) =
      >>=-Ensures (electric_row r t pk bid controllable name (electricity_reading load)) _ (λ row e.
        returned (Ensures-elim (electric_row-Ensures name (electricity_reading load)) e, tt))

  outlet_row-Ensures :
      (name : String) → Ensures (All RowFit) (outlet_row r t pk bid controllable name)
  outlet_row-Ensures name = elim (Bool-cases (is_electric name)) [
    | inl b ↦ rw b (outlet_rows_of-Ensures name (load_of pk name t.loads))
    | inr b ↦ rw b (returned (controls_of-IsFit Switch.unknown, tt))
  ]

  pub outlet_rows-Ensures :
      (names : List String) → Ensures (All RowFit) (outlet_rows r t pk bid controllable names)
  unfolding outlet_rows
  outlet_rows-Ensures [] = returned tt
  outlet_rows-Ensures (name ∷ names) =
      >>=-Ensures (outlet_row r t pk bid controllable name) _ (λ row e.
        >>=-Ensures (outlet_rows r t pk bid controllable names) _ (λ rest e'. returned (
          append-All RowFit row rest (Ensures-elim (outlet_row-Ensures name) e)
            (Ensures-elim (outlet_rows-Ensures names) e'))))
