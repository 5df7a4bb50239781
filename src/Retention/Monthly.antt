-- ===== src/Retention/Monthly.antt =====
-- The figures that backend/app/services/retention.py adds up: `agg` by outlet, month and Smart Mode,
-- and the rows of `ConsumptionMonthly` (backend/app/models/metering.py).
use erp_iot.Base.{ℕ, ◌+◌, Bool, ◌&&◌, Option, none, some, List, [], ◌∷◌, map, ◌==◌, if◌then◌else◌}
use erp_iot.Base.Int.{ℤ, pos, ◌+ℤ◌}
use erp_iot.Collector.{Interval, same_flag}
use erp_iot.Retention.Calendar.{month}

pub record Key : Type 0 where
  pub outlet_id : ℕ
  pub month : ℕ
  pub standalone : Bool

pub record Figures : Type 0 where
  pub key : Key
  pub energy_kwh : Option ℤ
  pub water_liters : Option ℤ
  pub interval_count : ℕ

abbrev pub same_key : Key → Key → Bool
same_key a b =
    a.outlet_id == b.outlet_id && a.month == b.month && same_flag a.standalone b.standalone

-- `Decimal(x) if x is not None else Decimal(0)`
abbrev pub or_zero : Option ℤ → ℤ
or_zero none = pos 0
or_zero (some z) = z

-- what an amount adds to a sum that may not be there
abbrev pub plus : Option ℤ → Option ℤ → Option ℤ
plus sum none = sum
plus sum (some z) = some (or_zero sum +ℤ z)

abbrev pub blank : Key → Figures
blank k = record { key = k; energy_kwh = none; water_liters = none; interval_count = 0 }

abbrev pub merged : Figures → Figures → Figures
merged m f = record m {
  energy_kwh = plus m.energy_kwh f.energy_kwh;
  water_liters = plus m.water_liters f.water_liters;
  interval_count = m.interval_count + f.interval_count;
}

-- the entry of a key is found, or a blank one is added, and the figures go into it
unfoldable pub tally : Figures → List Figures → List Figures
tally f [] = merged (blank f.key) f ∷ []
tally f (m ∷ ms) = if same_key m.key f.key then merged m f ∷ ms else m ∷ tally f ms

unfoldable pub tally_all : List Figures → List Figures → List Figures
tally_all [] ms = ms
tally_all (f ∷ fs) ms = tally_all fs (tally f ms)

abbrev pub figures_of : Interval → Figures
figures_of r = record {
  key = record { outlet_id = r.outlet_id; month = month r.from_at; standalone = r.standalone };
  energy_kwh = r.energy_kwh;
  water_liters = r.water_liters;
  interval_count = 1;
}

-- `agg` of one chunk
abbrev pub aggregated : List Interval → List Figures
aggregated rows = tally_all (map figures_of rows) []
