-- ===== src/Collector/Schedule/Alarms.antt =====
-- An alarm is stored once, however often the cabinet lists it.
use erp_iot.Base.{
  ℕ, ◌≡◌, inl, inr, refl, ap, subst, Bool, true, false, ◌||◌, Option, none, some, List, ◌∷◌, arith,
  Bool-cases, any, if◌then◌else◌, ==_iff,
}
use erp_iot.Base.Int.{ℤ}
use erp_iot.Base.Json.{
  Json, null, bool, int, float, str, arr, obj, Items, nil, cons, entries, get_json, is_hashable,
}
use erp_iot.Base.Time.{Time}
use erp_iot.Collector.{PolledCabinet, AlarmRow}
use erp_iot.Collector.Schedule.{
  Stored, log_alarm, log_for, log_at, last_of, is_pk, int_id, is_logged, store_alarm, after_alarm,
  add_count, store_alarms,
}

-- Rows that hold every alarm of `rows`.
abbrev pub Holds : List AlarmRow → List AlarmRow → Type 0
Holds rows more =
    (cabinet : ℕ) (alarm : ℤ)
    → any (is_logged cabinet alarm) rows ≡ true
    → any (is_logged cabinet alarm) more ≡ true

-- What storing leaves: the old alarms, and nothing new to store the next time.
record IsKept (again : Time → List AlarmRow → Stored) (rows rows' : List AlarmRow) : Type 0 where
  holds : Holds rows rows'
  stored :
      (more : List AlarmRow) (later : Time) → Holds rows' more → again later more ≡ (some 0, more)

row_of : ℕ → ℤ → Json → Time → AlarmRow
row_of c a v t = record { cabinet_id = c; cabinet_alarm_id = a; alarm_data = v; received_at = t }

is_logged-row : (c : ℕ) (a : ℤ) (v : Json) (t : Time) → is_logged c a (row_of c a v t) ≡ true
unfolding row_of
is_logged-row c a v t = ground (arith, ==_iff c c)

any_more : (b c : Bool) → c ≡ true → (b || c) ≡ true
any_more true c h = refl
any_more false c h = h

log_alarm-IsKept :
    (c : ℕ) (a : ℤ) (v : Json) (now : Time) (rows : List AlarmRow)
    → IsKept (λ later more. log_alarm c a v later more) rows (log_alarm c a v now rows).1
unfolding row_of
log_alarm-IsKept c a v now rows = elim (Bool-cases (any (is_logged c a) rows)) [
  | inl b ↦ rw b (record { holds = λ d e h. h; stored = λ more later h. rw (h c a b) refl })
  | inr b ↦ rw b (record {
    holds = λ d e h. any_more (is_logged d e (row_of c a v now)) (any (is_logged d e) rows) h;
    stored = λ more later h.
        let new : any (is_logged c a) (row_of c a v now ∷ rows) ≡ true =
          rw (is_logged-row c a v now) refl in
        rw (h c a new) refl;
  })
]

-- Storing that never adds a row for these arguments.
idle-IsKept : (rows : List AlarmRow) → IsKept (λ later more. (some 0, more)) rows rows
idle-IsKept rows = record { holds = λ d e h. h; stored = λ more later h. refl }

idle-from :
    (rows rows' : List AlarmRow) (n : ℕ)
    → Path Stored (some 0, rows) (some n, rows')
    → IsKept (λ later more. (some 0, more)) rows rows'
idle-from rows rows' n h =
    subst (IsKept (λ later more. (some 0, more)) rows) (ap (λ p. p.1) h) (idle-IsKept rows)

log_for-IsKept :
    (cab : Option PolledCabinet) (a : ℤ) (v : Json) (now : Time) (rows : List AlarmRow)
    → IsKept (λ later more. log_for cab a v later more) rows (log_for cab a v now rows).1
log_for-IsKept none a v now rows = idle-IsKept rows
log_for-IsKept (some cab) a v now rows = log_alarm-IsKept cab.id a v now rows

log_at-IsKept :
    (cabs : List PolledCabinet) (alarm : Option ℤ) (pedestal v : Json) (now : Time)
    (rows rows' : List AlarmRow) (n : ℕ)
    → log_at cabs alarm pedestal v now rows ≡ (some n, rows')
    → IsKept (λ later more. log_at cabs alarm pedestal v later more) rows rows'
log_at-IsKept cabs none pedestal v now rows rows' n h = idle-from rows rows' n h
log_at-IsKept cabs (some a) pedestal v now rows rows' n h = by_key (is_hashable pedestal) h
  where
    by_key :
        (b : Bool)
        → (if b
            then log_for (last_of (λ c. is_pk c.pedestal_pk pedestal) cabs) a v now rows
            else (none, rows))
          ≡ (some n, rows')
        → IsKept
            (λ later more.
              if b
              then log_for (last_of (λ c. is_pk c.pedestal_pk pedestal) cabs) a v later more
              else (none, more))
            rows
            rows'
    by_key true e =
        subst (IsKept _ rows) (ap (λ p. p.1) e)
          (log_for-IsKept (last_of (λ c. is_pk c.pedestal_pk pedestal) cabs) a v now rows)
    by_key false e = let f = ap (λ p. p.0) e in cc

store_alarm-IsKept :
    (cabs : List PolledCabinet) (a : Json) (now : Time) (rows rows' : List AlarmRow) (n : ℕ)
    → store_alarm cabs a now rows ≡ (some n, rows')
    → IsKept (λ later more. store_alarm cabs a later more) rows rows'
unfolding store_alarm
store_alarm-IsKept cabs (obj fs) now rows rows' n h =
    log_at-IsKept cabs (int_id (get_json "id" (entries fs))) (get_json "pedestal_id" (entries fs))
      (obj fs) now rows rows' n h
store_alarm-IsKept cabs null now rows rows' n h = idle-from rows rows' n h
store_alarm-IsKept cabs (bool b) now rows rows' n h = idle-from rows rows' n h
store_alarm-IsKept cabs (int k) now rows rows' n h = idle-from rows rows' n h
store_alarm-IsKept cabs (float x) now rows rows' n h = idle-from rows rows' n h
store_alarm-IsKept cabs (str s) now rows rows' n h = idle-from rows rows' n h
store_alarm-IsKept cabs (arr xs) now rows rows' n h = idle-from rows rows' n h

-- The first alarm and the rest of an answer.
both-IsKept :
    (first_alarm rest : Time → List AlarmRow → Stored) (rows middle rows' : List AlarmRow)
    → IsKept first_alarm rows middle
    → IsKept rest middle rows'
    → IsKept (λ later more. after_alarm (first_alarm later more) (λ m. rest later m)) rows rows'
both-IsKept first_alarm rest rows middle rows' a b = record {
  holds = λ c e h. b.holds c e (a.holds c e h);
  stored = λ more later h.
      let e = a.stored more later (λ c d k. h c d (b.holds c d k)) in
      let f = b.stored more later h in rw (e, f) refl;
}

counted :
    (k : ℕ) (s : Stored) (rows' : List AlarmRow) (n : ℕ)
    → add_count k s ≡ (some n, rows')
    → (j : ℕ) × (s ≡ (some j, rows'))
counted k (none, rows) rows' n h = let f = ap (λ p. p.0) h in cc
counted k (some j, rows) rows' n h = (j, ap (λ r. (some j, r)) (ap (λ p. p.1) h))

store_alarms-IsKept :
    (cabs : List PolledCabinet) (alarms : Items) (now : Time) (rows rows' : List AlarmRow) (n : ℕ)
    → store_alarms cabs alarms now rows ≡ (some n, rows')
    → IsKept (λ later more. store_alarms cabs alarms later more) rows rows'
unfolding store_alarms
store_alarms-IsKept cabs nil now rows rows' n h = idle-from rows rows' n h
store_alarms-IsKept cabs (cons a alarms) now rows rows' n h =
    by_first (store_alarm cabs a now rows) refl h
      (λ middle k g. store_alarms-IsKept cabs alarms now middle rows' k g)
  where
    by_first :
        (s : Stored)
        → store_alarm cabs a now rows ≡ s
        → after_alarm s (λ middle. store_alarms cabs alarms now middle) ≡ (some n, rows')
        → ((middle : List AlarmRow) (k : ℕ)
            → store_alarms cabs alarms now middle ≡ (some k, rows')
            → IsKept (λ later more. store_alarms cabs alarms later more) middle rows')
        → IsKept (λ later more. store_alarms cabs (cons a alarms) later more) rows rows'
    by_first (none, middle) e g ih = let f = ap (λ p. p.0) g in cc
    by_first (some k, middle) e g ih =
        let (j, f) = counted k (store_alarms cabs alarms now middle) rows' n g in
        both-IsKept (λ later more. store_alarm cabs a later more)
          (λ later more. store_alarms cabs alarms later more) rows middle rows'
          (store_alarm-IsKept cabs a now rows middle k e) (ih middle j f)

-- When a cabinet lists the same alarms again, at any later time, not one of them is stored a second
-- time: a pass that ended well leaves nothing new for the next.
pub store_alarms-again :
    (cabs : List PolledCabinet) (alarms : Items) (now later : Time) (rows rows' : List AlarmRow)
    (n : ℕ)
    → store_alarms cabs alarms now rows ≡ (some n, rows')
    → store_alarms cabs alarms later rows' ≡ (some 0, rows')
store_alarms-again cabs alarms now later rows rows' n h =
    (store_alarms-IsKept cabs alarms now rows rows' n h).stored rows' later (λ c e k. k)
