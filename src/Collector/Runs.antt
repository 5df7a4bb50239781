-- ===== src/Collector/Runs.antt =====
-- A sequence of readings of one outlet: the intervals add up to the last register less the first.
use erp_iot.Base.{
  ℕ, ◌<◌, ◌≡◌, inl, inr, refl, ap, ◌∙◌, false, Option, none, some, List, [], ◌∷◌, arith, Bool-cases,
  ◌==◌, ==_iff, leb, if◌then◌else◌, first-passes, first-hit, first-miss, some-injective,
}
use erp_iot.Base.Int.{ℤ, pos, ◌+ℤ◌, ◌-ℤ◌, ltb_ℤ, eqb_ℤ, ◌≤ℤ◌, +ℤ_parts, -ℤ_parts, eq_of_parts}
use erp_iot.Base.Time.{Time}
use erp_iot.Collector.{
  MeterState, Meters, PolledCabinet, state_of, put_state, advance, read_against, record_reading,
  interval_at, extendable_id, attributed, active_session, is_off,
}
use erp_iot.Sessions.Table.{ErpSession}
use erp_iot.Collector.Totals.{total, gain, rise, +ℤ_zero, record_reading-total}

-- the cabinet as it was polled, the sessions at that moment, the register and the time
abbrev pub Sample : Type 0
Sample = PolledCabinet × List ErpSession × ℤ × Time

abbrev pub with_sessions : List ErpSession → Meters → Meters
with_sessions sessions m = record m { sessions = sessions }

unfoldable pub read_all : ℕ → Meters → List Sample → Meters
read_all outlet m [] = m
read_all outlet m ((cab, sessions, register, at) ∷ rest) =
    read_all outlet (record_reading cab outlet register at (with_sessions sessions m)).1 rest

-- Each reading is later than the one before it, and its register no lower.
abbrev pub IsRising : ℤ → Time → List Sample → Type 0
IsRising register at [] = Unit {0}
IsRising register at ((cab, sessions, next, later) ∷ rest) =
    (at < later) × (register ≤ℤ next) × IsRising next later rest

abbrev pub last_register : ℤ → List Sample → ℤ
last_register register [] = register
last_register register ((cab, sessions, next, later) ∷ rest) = last_register next rest

state_of-put :
    (s : MeterState) (states : List MeterState) (o : ℕ)
    → s.outlet_id ≡ o
    → state_of o (put_state s states) ≡ some s
state_of-put s [] o e = first-hit (λ x. x.outlet_id == o) s [] ((==_iff s.outlet_id o).1 e)
state_of-put s (t ∷ states) o e = elim (Bool-cases (t.outlet_id == s.outlet_id)) [
  | inl b ↦ rw b (first-hit (λ x. x.outlet_id == o) s states ((==_iff s.outlet_id o).1 e))
  | inr b ↦ rw b (
      first-miss (λ x. x.outlet_id == o) t (put_state s states) (away t.outlet_id s.outlet_id o b e)
      ∙ state_of-put s states o e)
]
  where
    away : (a b o : ℕ) → (a == b) ≡ false → b ≡ o → (a == o) ≡ false
    away a b o h e = ground arith

-- The meter stands at this register since this time.
record IsAt (outlet : ℕ) (register : ℤ) (at : Time) (m : Meters) : Type 0 where
  state : MeterState
  found : state_of outlet m.states ≡ some state
  reading : state.energy_kwh ≡ some register
  read : state.read_at ≡ at

-- the sessions do not move the meter
with_sessions-IsAt :
    {outlet : ℕ} {register : ℤ} {at : Time} {m : Meters} {sessions : List ErpSession}
    → IsAt outlet register at m
    → IsAt outlet register at (with_sessions sessions m)
with_sessions-IsAt i = record {
  state = i.state;
  found = i.found;
  reading = i.reading;
  read = i.read;
}

put-IsAt :
    (outlet : ℕ) (register : ℤ) (at : Time) (s : MeterState) (m m' : Meters)
    → m'.states ≡ put_state s m.states
    → s.outlet_id ≡ outlet
    → s.energy_kwh ≡ some register
    → s.read_at ≡ at
    → IsAt outlet register at m'
put-IsAt outlet register at s m m' p o e t = record {
  state = s;
  found = ap (state_of outlet) p ∙ state_of-put s m.states outlet o;
  reading = e;
  read = t;
}

advance-IsAt :
    (cab : PolledCabinet) (outlet : ℕ) (register : ℤ) (at : Time) (st : MeterState) (prev delta : ℤ)
    (session idle : Option ℕ) (m : Meters)
    → st.outlet_id ≡ outlet
    → IsAt outlet register at (advance cab outlet register at st prev delta session idle m).1
advance-IsAt cab outlet register at st prev delta session none m e =
    put-IsAt outlet register at _ m _ refl e refl refl
advance-IsAt cab outlet register at st prev delta session (some id) m e =
    put-IsAt outlet register at _ m _ refl e refl refl

seed-IsAt :
    (cab : PolledCabinet) (outlet : ℕ) (register : ℤ) (at : Time) (m : Meters)
    → state_of outlet m.states ≡ none
    → IsAt outlet register at (record_reading cab outlet register at m).1
unfolding record_reading
seed-IsAt cab outlet register at m e =
    rw (e, record_reading) (put-IsAt outlet register at _ m _ refl refl refl refl)

against-IsAt :
    (cab : PolledCabinet) (outlet : ℕ) (before register : ℤ) (later : Time) (st : MeterState)
    (read : Option ℤ) (m : Meters)
    → read ≡ some before
    → st.outlet_id ≡ outlet
    → before ≤ℤ register
    → IsAt outlet register later (read_against cab outlet register later st read m).1
against-IsAt cab outlet before register later st none m e o h = cc
against-IsAt cab outlet before register later st (some prev) m e o h =
    let no_reset : ltb_ℤ register prev ≡ false = ground arith in
    rw no_reset (
      advance-IsAt cab outlet register later st prev (register -ℤ prev) _
        (if eqb_ℤ (register -ℤ prev) (pos 0)
          then extendable_id (attributed cab.smart_mode (active_session m.sessions outlet))
              (is_off cab.smart_mode) st.read_at (interval_at st.last_interval_id m.intervals)
          else none)
        m o)

state_of-outlet :
    (outlet : ℕ) (states : List MeterState) (st : MeterState)
    → state_of outlet states ≡ some st
    → st.outlet_id ≡ outlet
state_of-outlet outlet states st h =
    (==_iff st.outlet_id outlet).0 (first-passes (λ s. s.outlet_id == outlet) states st h)

is_late : (at later read : Time) → read ≡ at → at < later → leb later read ≡ false
is_late at later read e t = ground arith

-- A later reading that is no lower moves the meter there.
step-IsAt :
    (cab : PolledCabinet) (outlet : ℕ) (before register : ℤ) (at later : Time) (m : Meters)
    → IsAt outlet before at m
    → at < later
    → before ≤ℤ register
    → IsAt outlet register later (record_reading cab outlet register later m).1
unfolding record_reading
step-IsAt cab outlet before register at later m i t h =
    rw (i.found, record_reading, is_late at later i.state.read_at i.read t)
      (against-IsAt cab outlet before register later i.state i.state.energy_kwh m i.reading
        (state_of-outlet outlet m.states i.state i.found) h)

at-gain :
    (outlet : ℕ) (before register : ℤ) (at later : Time) (m : Meters)
    → IsAt outlet before at m
    → at < later
    → before ≤ℤ register
    → gain register later (state_of outlet m.states) ≡ register -ℤ before
at-gain outlet before register at later m i t h =
    rw (i.found, is_late at later i.state.read_at i.read t) (rise_from i.state.energy_kwh i.reading)
  where
    rise_from : (read : Option ℤ) → read ≡ some before → rise register read ≡ register -ℤ before
    rise_from none e = cc
    rise_from (some prev) e =
        let same : prev ≡ before = some-injective e in
        let no_reset : ltb_ℤ register prev ≡ false = ground arith in rw (no_reset, same) refl

telescope : (a p r l : ℤ) → (a +ℤ (r -ℤ p)) +ℤ (l -ℤ r) ≡ a +ℤ (l -ℤ p)
telescope a p r l = eq_of_parts ((a +ℤ (r -ℤ p)) +ℤ (l -ℤ r)) (a +ℤ (l -ℤ p)) (
    omega (
      arith,
      +ℤ_parts (a +ℤ (r -ℤ p)) (l -ℤ r),
      +ℤ_parts a (r -ℤ p),
      +ℤ_parts a (l -ℤ p),
      -ℤ_parts r p,
      -ℤ_parts l r,
      -ℤ_parts l p,
    ))

read_all-from :
    (outlet : ℕ) (register : ℤ) (at : Time) (m : Meters) (rest : List Sample)
    → IsAt outlet register at m
    → IsRising register at rest
    → total outlet (read_all outlet m rest).intervals
      ≡ total outlet m.intervals +ℤ (last_register register rest -ℤ register)
unfolding read_all
read_all-from outlet register at m [] i h =
    eq_of_parts (total outlet m.intervals) (total outlet m.intervals +ℤ (register -ℤ register)) (
      omega (
        arith,
        +ℤ_parts (total outlet m.intervals) (register -ℤ register),
        -ℤ_parts register register,
      ))
read_all-from outlet register at m ((cab, sessions, next, later) ∷ rest) i (t, h, r) =
    let s = with_sessions sessions m in
    let m' = (record_reading cab outlet next later s).1 in
    read_all-from outlet next later m' rest
      (step-IsAt cab outlet register next at later s (with_sessions-IsAt i) t h) r
    ∙ ap (λ x. x +ℤ (last_register next rest -ℤ next))
        ((record_reading-total cab outlet next later s).0
          ∙ ap (λ x. total outlet m.intervals +ℤ x)
              (at-gain outlet register next at later s (with_sessions-IsAt i) t h))
    ∙ telescope (total outlet m.intervals) register next (last_register next rest)

-- Whatever the Smart Mode and the sessions are at each reading, the readings of an outlet that never goes
-- back leave intervals whose energy adds up to the last register less the first: nothing is lost
-- and nothing is counted twice.
pub read_all-total :
    (outlet : ℕ) (cab : PolledCabinet) (sessions : List ErpSession) (register : ℤ) (at : Time)
    (m : Meters) (rest : List Sample)
    → state_of outlet m.states ≡ none
    → IsRising register at rest
    → total outlet (read_all outlet m ((cab, sessions, register, at) ∷ rest)).intervals
      ≡ total outlet m.intervals +ℤ (last_register register rest -ℤ register)
unfolding read_all
read_all-total outlet cab sessions register at m rest e h =
    let s = with_sessions sessions m in
    let m' = (record_reading cab outlet register at s).1 in
    read_all-from outlet register at m' rest (seed-IsAt cab outlet register at s e) h
    ∙ ap (λ x. x +ℤ (last_register register rest -ℤ register))
        ((record_reading-total cab outlet register at s).0
          ∙ ap (λ st. total outlet m.intervals +ℤ gain register at st) e
          ∙ +ℤ_zero (total outlet m.intervals))
