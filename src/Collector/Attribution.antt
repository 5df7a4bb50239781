-- ===== src/Collector/Attribution.antt =====
-- Which intervals belong to a session.
use erp_iot.Base.{
  ℕ, ◌≡◌, inl, inr, refl, Bool, true, false, ◌&&◌, Option, none, some, List, [], ◌∷◌, Bool-cases,
  ◌==◌, leb, All, is_some,
}
use erp_iot.Base.Int.{ℤ, ◌-ℤ◌, ltb_ℤ}
use erp_iot.Base.Time.{Time}
use erp_iot.Collector.{
  MeterState, Interval, Meters, PolledCabinet, state_of, extended_to, advance, read_against,
  read_state, record_reading, attributed, is_off, active_session,
}

-- An interval outside Smart Mode has no session.
abbrev pub IsSeparate : List Interval → Type 0
IsSeparate rows = All (λ r. (r.standalone && is_some r.session_id) ≡ false) rows

extended_to-IsSeparate :
    (id : ℕ) (at : Time) (register : ℤ) (rows : List Interval)
    → IsSeparate rows
    → IsSeparate (extended_to id at register rows)
extended_to-IsSeparate id at register [] h = tt
extended_to-IsSeparate id at register (r ∷ rows) (h, hs) = elim (Bool-cases (r.id == id)) [
  | inl b ↦ rw b (h, extended_to-IsSeparate id at register rows hs)
  | inr b ↦ rw b (h, extended_to-IsSeparate id at register rows hs)
]

off_or_attributed :
    (smart : Option Bool) (session : Option ℕ)
    → (is_off smart && is_some (attributed smart session)) ≡ false
off_or_attributed none session = refl
off_or_attributed (some true) session = refl
off_or_attributed (some false) session = refl

advance-IsSeparate :
    (cab : PolledCabinet) (outlet : ℕ) (register : ℤ) (at : Time) (st : MeterState) (prev delta : ℤ)
    (session idle : Option ℕ) (m : Meters)
    → IsSeparate m.intervals
    → IsSeparate
        (advance cab outlet register at st prev delta
          (attributed cab.smart_mode session)
          idle
          m).1.intervals
advance-IsSeparate cab outlet register at st prev delta session none m h =
    (off_or_attributed cab.smart_mode session, h)
advance-IsSeparate cab outlet register at st prev delta session (some id) m h =
    extended_to-IsSeparate id at register m.intervals h

read_against-IsSeparate :
    (cab : PolledCabinet) (outlet : ℕ) (register : ℤ) (at : Time) (st : MeterState)
    (before : Option ℤ) (m : Meters)
    → IsSeparate m.intervals
    → IsSeparate (read_against cab outlet register at st before m).1.intervals
read_against-IsSeparate cab outlet register at st none m h = h
read_against-IsSeparate cab outlet register at st (some prev) m h =
    elim (Bool-cases (ltb_ℤ register prev)) [
      | inl b ↦ rw b h
      | inr b ↦ rw b (
          advance-IsSeparate cab outlet register at st prev (register -ℤ prev)
            (active_session m.sessions outlet) _ m h)
    ]

read_state-IsSeparate :
    (cab : PolledCabinet) (outlet : ℕ) (register : ℤ) (at : Time) (st : Option MeterState)
    (m : Meters)
    → IsSeparate m.intervals
    → IsSeparate (read_state cab outlet register at st m).1.intervals
read_state-IsSeparate cab outlet register at none m h = h
read_state-IsSeparate cab outlet register at (some st) m h = elim (Bool-cases (leb at st.read_at)) [
  | inl b ↦ rw b h
  | inr b ↦ rw b (read_against-IsSeparate cab outlet register at st st.energy_kwh m h)
]

-- No reading ever makes an interval that is standalone and has a session, whatever the Smart Mode
-- is, was, or becomes while an idle interval is extended.
pub record_reading-IsSeparate :
    (cab : PolledCabinet) (outlet : ℕ) (register : ℤ) (at : Time) (m : Meters)
    → IsSeparate m.intervals
    → IsSeparate (record_reading cab outlet register at m).1.intervals
unfolding record_reading
record_reading-IsSeparate cab outlet register at m h =
    read_state-IsSeparate cab outlet register at (state_of outlet m.states) m h
