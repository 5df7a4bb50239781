-- ===== src/Collector/Totals.antt =====
-- The intervals of an outlet add up to what its register has risen by.
use erp_iot.Base.{
  ℕ, ◌≡◌, inl, inr, refl, sym, ap, ◌∙◌, true, Option, none, some, List, [], ◌∷◌, arith, Bool-cases,
  ◌==◌, ==_iff, leb, if◌then◌else◌,
}
use erp_iot.Base.Int.{ℤ, pos, ◌+ℤ◌, ◌-ℤ◌, ltb_ℤ, eqb_ℤ, ◌≤ℤ◌, +ℤ_parts, -ℤ_parts, eq_of_parts}
use erp_iot.Base.Time.{Time}
use erp_iot.Collector.{
  MeterState, Interval, Meters, PolledCabinet, state_of, extended_to, advance, read_against,
  read_state, record_reading,
}

abbrev pub energy : Option ℤ → ℤ
energy none = pos 0
energy (some e) = e

-- the energy of all intervals of an outlet
abbrev pub total : ℕ → List Interval → ℤ
total outlet [] = pos 0
total outlet (r ∷ rows) =
    if r.outlet_id == outlet then total outlet rows +ℤ energy r.energy_kwh else total outlet rows

-- by how much a reading raises the consumption of its outlet
abbrev pub rise : ℤ → Option ℤ → ℤ
rise register none = pos 0
rise register (some prev) = if ltb_ℤ register prev then pos 0 else register -ℤ prev

abbrev pub gain : ℤ → Time → Option MeterState → ℤ
gain register at none = pos 0
gain register at (some st) = if leb at st.read_at then pos 0 else rise register st.energy_kwh

rise_positive : (register : ℤ) (before : Option ℤ) → pos 0 ≤ℤ rise register before
rise_positive register none = omega arith
rise_positive register (some prev) = elim (Bool-cases (ltb_ℤ register prev)) [
  | inl b ↦ rw b (omega arith)
  | inr b ↦ rw b (ground (arith, -ℤ_parts register prev))
]

gain_positive : (register : ℤ) (at : Time) (st : Option MeterState) → pos 0 ≤ℤ gain register at st
gain_positive register at none = omega arith
gain_positive register at (some st) = elim (Bool-cases (leb at st.read_at)) [
  | inl b ↦ rw b (omega arith)
  | inr b ↦ rw b (rise_positive register st.energy_kwh)
]

pub +ℤ_zero : (a : ℤ) → a +ℤ pos 0 ≡ a
+ℤ_zero a = eq_of_parts (a +ℤ pos 0) a (omega (arith, +ℤ_parts a (pos 0)))

total-extended_to :
    (outlet id : ℕ) (at : Time) (register : ℤ) (rows : List Interval)
    → total outlet (extended_to id at register rows) ≡ total outlet rows
total-extended_to outlet id at register [] = refl
total-extended_to outlet id at register (r ∷ rows) = elim (Bool-cases (r.id == id)) [
  | inl b ↦ rw (b, total-extended_to outlet id at register rows) refl
  | inr b ↦ rw (b, total-extended_to outlet id at register rows) refl
]

eqb_zero : (d : ℤ) → eqb_ℤ d (pos 0) ≡ true → d ≡ pos 0
eqb_zero d h = ground arith

-- What one reading adds.
abbrev Adds : ℕ → ℤ → Meters → Meters → Type 0
Adds outlet d m m' = total outlet m'.intervals ≡ total outlet m.intervals +ℤ d

-- A new interval adds its energy.
new-Adds :
    (cab : PolledCabinet) (outlet : ℕ) (register : ℤ) (at : Time) (st : MeterState) (prev delta : ℤ)
    (session : Option ℕ) (m : Meters)
    → Adds outlet delta m (advance cab outlet register at st prev delta session none m).1
new-Adds cab outlet register at st prev delta session m = rw ((==_iff outlet outlet).1 refl) refl

extended-Adds :
    (cab : PolledCabinet) (outlet : ℕ) (register : ℤ) (at : Time) (st : MeterState) (prev delta : ℤ)
    (session : Option ℕ) (id : ℕ) (m : Meters)
    → delta ≡ pos 0
    → Adds outlet delta m (advance cab outlet register at st prev delta session (some id) m).1
extended-Adds cab outlet register at st prev delta session id m e =
    total-extended_to outlet id at register m.intervals
    ∙ sym (+ℤ_zero (total outlet m.intervals))
    ∙ ap (λ d. total outlet m.intervals +ℤ d) (sym e)

advance-Adds :
    (cab : PolledCabinet) (outlet : ℕ) (register : ℤ) (at : Time) (st : MeterState) (prev delta : ℤ)
    (session idle : Option ℕ) (m : Meters)
    → Adds outlet delta m
        (advance cab outlet register at st prev delta session
          (if eqb_ℤ delta (pos 0) then idle else none)
          m).1
advance-Adds cab outlet register at st prev delta session none m =
    elim (Bool-cases (eqb_ℤ delta (pos 0))) [
      | inl b ↦ rw b (new-Adds cab outlet register at st prev delta session m)
      | inr b ↦ rw b (new-Adds cab outlet register at st prev delta session m)
    ]
advance-Adds cab outlet register at st prev delta session (some id) m =
    elim (Bool-cases (eqb_ℤ delta (pos 0))) [
      | inl b ↦
          rw b (extended-Adds cab outlet register at st prev delta session id m (eqb_zero delta b))
      | inr b ↦ rw b (new-Adds cab outlet register at st prev delta session m)
    ]

read_against-Adds :
    (cab : PolledCabinet) (outlet : ℕ) (register : ℤ) (at : Time) (st : MeterState)
    (before : Option ℤ) (m : Meters)
    → Adds outlet (rise register before) m (read_against cab outlet register at st before m).1
read_against-Adds cab outlet register at st none m = sym (+ℤ_zero (total outlet m.intervals))
read_against-Adds cab outlet register at st (some prev) m =
    elim (Bool-cases (ltb_ℤ register prev)) [
      | inl b ↦ rw b (sym (+ℤ_zero (total outlet m.intervals)))
      | inr b ↦ rw b (advance-Adds cab outlet register at st prev (register -ℤ prev) _ _ m)
    ]

read_state-Adds :
    (cab : PolledCabinet) (outlet : ℕ) (register : ℤ) (at : Time) (st : Option MeterState)
    (m : Meters)
    → Adds outlet (gain register at st) m (read_state cab outlet register at st m).1
read_state-Adds cab outlet register at none m = sym (+ℤ_zero (total outlet m.intervals))
read_state-Adds cab outlet register at (some st) m = elim (Bool-cases (leb at st.read_at)) [
  | inl b ↦ rw b (sym (+ℤ_zero (total outlet m.intervals)))
  | inr b ↦ rw b (read_against-Adds cab outlet register at st st.energy_kwh m)
]

-- One reading adds to the intervals of its outlet exactly what the register has risen by since the
-- last reading: nothing for a first reading, for one that is not newer and for a register that was
-- reset or swapped, and never a negative amount.
pub record_reading-total :
    (cab : PolledCabinet) (outlet : ℕ) (register : ℤ) (at : Time) (m : Meters)
    → (total outlet (record_reading cab outlet register at m).1.intervals
        ≡ total outlet m.intervals +ℤ gain register at (state_of outlet m.states))
      × (pos 0 ≤ℤ gain register at (state_of outlet m.states))
unfolding record_reading
record_reading-total cab outlet register at m = (
  read_state-Adds cab outlet register at (state_of outlet m.states) m,
  gain_positive register at (state_of outlet m.states),
)
