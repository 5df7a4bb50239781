-- ===== src/Collector/Schedule/Due.antt =====
-- How often the tasks run.
use erp_iot.Base.{
  ℕ, ◌+◌, ◌≤◌, ◌≡◌, ◌≢◌, refl, sym, ap, ◌∙◌, Bool, true, false, not, ◌||◌, Option, none, some,
  arith, ◌==◌, ==_iff, if◌then◌else◌,
}
use erp_iot.Base.Time.{Time, seconds}
use erp_iot.Collector.Schedule.{is_due, nightly_due, hour_of, date_of, nightly_hour, ran_today}

-- Two runs of one task lie at least its period apart, by the period that holds at the second run:
-- an idle cabinet that became busy moves to the short period at once.
pub is_due-spacing :
    (every now every' later : ℕ) (last : Option Time)
    → (is_due every now last).0 ≡ true
    → (is_due every' later (is_due every now last).1).0 ≡ true
    → now + seconds every' ≤ later
unfolding is_due
is_due-spacing every now every' later none h k = ground arith
is_due-spacing every now every' later (some t) h k = ground arith

abbrev outcome : Bool → Option Time → Time → Bool × Option Time
outcome b last now = if b then (false, last) else (true, some now)

nightly_due-last :
    (now : Time) (last : Option Time)
    → (nightly_due now last).0 ≡ true
    → (nightly_due now last).1 ≡ some now
unfolding nightly_due
nightly_due-last now last h = by_test (not (hour_of now == nightly_hour) || ran_today now last) h
  where
    by_test : (b : Bool) → (outcome b last now).0 ≡ true → (outcome b last now).1 ≡ some now
    by_test true e = cc
    by_test false e = refl

refused_twice :
    (hour day day' : ℕ) → (not (hour == 2) || day == day') ≡ false → (hour ≡ 2) × (day ≢ day')
refused_twice hour day day' h = ground (arith, ==_iff hour 2, ==_iff day day')

nightly_due-after :
    (now later : Time)
    → (nightly_due later (some now)).0 ≡ true
    → (hour_of later ≡ 2) × (date_of now ≢ date_of later)
unfolding nightly_due
nightly_due-after now later k =
    refused_twice (hour_of later) (date_of now) (date_of later)
      (by_test (not (hour_of later == 2) || date_of now == date_of later) k)
  where
    by_test : (b : Bool) → (outcome b (some now) later).0 ≡ true → b ≡ false
    by_test true e = cc
    by_test false e = refl

-- The nightly pass starts in the hour from two to three, and never twice on one day.
pub nightly_due-once :
    (now later : Time) (last : Option Time)
    → (nightly_due now last).0 ≡ true
    → (nightly_due later (nightly_due now last).1).0 ≡ true
    → (hour_of later ≡ 2) × (date_of now ≢ date_of later)
nightly_due-once now later last h k =
    nightly_due-after now later
      (ap (λ l. (nightly_due later l).0) (sym (nightly_due-last now last h)) ∙ k)
