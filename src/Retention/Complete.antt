-- ===== src/Retention/Complete.antt =====
-- backend/app/services/retention.py: a sweep against the deletion at one stroke that it stands for.
use erp_iot.Base.{
  take, ℕ, zero, suc, ◌+◌, ◌-◌, ◌≤◌, ◌<◌, ◌≡◌, refl, ap, sym, ◌∙◌, subst, Bool, true, not, List, [],
  ◌∷◌, select, length, map, Bool-cases, inl, inr, arith, All,
}
use erp_iot.Base.Int.{◌+ℤ◌}
use erp_iot.Base.Time.{Time, days}
use erp_iot.Collector.{Interval}
use erp_iot.Retention.{
  Log, days_of, chunk, Stamp, Store, Report, stamp_id, interval_id, is_old_stamp, is_old,
  is_old_simulated, intervals_days, simulated_intervals_days, old_chunk, roll_up_chunk,
  simulated_chunk, delete_simulated_chunk, delete_older, delete_simulated_intervals,
  roll_up_intervals, swept_log, swept_simulated, run,
}
use erp_iot.Retention.Chunks.{IsUnique, chunk_of, after_chunk, sweep}
use erp_iot.Retention.Conserved.{
  Amount, energy, water, held, counted, total, count, roll_up_intervals-conserves,
}
use erp_iot.Retention.Monthly.{Key, figures_of}
use erp_iot.Retention.Removed.{
  drop_first, after_chunk_lem, drop_first-IsUnique, drop_first-length, drop_first-kept, sweep-keeps,
  sweep_total,
}

module _ {ℓ} {A : Type ℓ} where
  take-empty : (n : ℕ) (xs : List A) → 0 < n → take n xs ≡ [] → length xs ≡ 0
  take-empty zero xs h e = absurd (omega arith)
  take-empty (suc n) [] h e = refl
  take-empty (suc n) (x ∷ xs) h e = absurd (omega (arith, ap length e))

  none_left :
      (p : A → Bool) (xs : List A) → length (select p xs) ≡ 0 → select (λ a. not (p a)) xs ≡ xs
  none_left p [] h = refl
  none_left p (x ∷ xs) h = elim (Bool-cases (p x)) [
    | inl e ↦ absurd (ground arith)
    | inr e ↦ rw e (ap (λ l. x ∷ l) (none_left p xs (ground arith)))
  ]

  length-select : (p : A → Bool) (xs : List A) → length (select p xs) ≤ length xs
  length-select p [] = omega arith
  length-select p (x ∷ xs) = ground (arith, length-select p xs)

-- A sweep over a state whose work takes the chunk off one of its tables.
module _ {ℓ κ} {S : Type ℓ} {A : Type κ} (rows_of : S → List A) (id : A → ℕ) (p : A → Bool)
    (size : ℕ) (work : S → S)
    (commutes : (s : S) → rows_of (work s) ≡ after_chunk id size p (rows_of s))
    (kept : List A) where
  abbrev IsLeft : S → Type κ
  IsLeft s = IsUnique id (rows_of s) × (select (λ a. not (p a)) (rows_of s) ≡ kept)

  work_lem : (s : S) → IsUnique id (rows_of s) → rows_of (work s) ≡ drop_first size p (rows_of s)
  work_lem s h = commutes s ∙ after_chunk_lem id size p (rows_of s) h

  work-IsLeft : (s : S) → IsLeft s → IsLeft (work s)
  work-IsLeft s h = (
    subst (IsUnique id) (sym (work_lem s h.0)) (drop_first-IsUnique id size p (rows_of s) h.0),
    ap (select (λ a. not (p a))) (work_lem s h.0) ∙ drop_first-kept size p (rows_of s) ∙ h.1,
  )

  work_left :
      (s : S)
      → IsLeft s
      → length (select p (rows_of (work s))) + length (chunk_of id size p (rows_of s))
        ≡ length (select p (rows_of s))
  work_left s h =
      omega (
        arith,
        ap (λ l. length (select p l)) (work_lem s h.0),
        drop_first-length size p (rows_of s),
      )

  swept_lem :
      (fuel : ℕ) (s : S)
      → 0 < size
      → length (rows_of s) < fuel
      → IsLeft s
      → let r = sweep (λ t. chunk_of id size p (rows_of t)) work fuel 0 s in
        (r.is_finished ≡ true)
        × (r.total ≡ length (select p (rows_of s)))
        × (rows_of r.state ≡ kept)
  swept_lem fuel s pos f h =
      let ended =
        sweep_total IsLeft (λ t. length (select p (rows_of t)))
          (λ t. chunk_of id size p (rows_of t)) work (λ t i. (work-IsLeft t i, work_left t i))
          (λ t i e. take-empty size _ pos e) fuel 0 s (omega (arith, length-select p (rows_of s)))
          h in
      let held_on =
        sweep-keeps IsLeft (λ t. length (select p (rows_of t)))
          (λ t. chunk_of id size p (rows_of t)) work work-IsLeft fuel 0 s h in
      (ended.0, omega (arith, ended.1), sym (none_left p _ ended.2) ∙ held_on.1)

-- The chunked deletion is the deletion at one stroke: with a limit above 0 and more fuel than rows it
-- ends, it counts each old row once, and it leaves exactly the rows that are not old, in their order.
-- The rows have distinct keys.
pub delete_older_lem :
    (size fuel : ℕ) (cutoff : Time) (rows : List Stamp)
    → 0 < size
    → length rows < fuel
    → IsUnique stamp_id rows
    → let r = delete_older size fuel cutoff rows in
      (r.is_finished ≡ true)
      × (r.total ≡ length (select (is_old_stamp cutoff) rows))
      × (r.state ≡ select (λ a. not (is_old_stamp cutoff a)) rows)
unfolding delete_older
delete_older_lem size fuel cutoff rows pos f keyed =
    swept_lem (λ l. l) stamp_id (is_old_stamp cutoff) size _ (λ s. refl) _ fuel rows pos f
      (keyed, refl)

delete_simulated_intervals_lem :
    (size fuel : ℕ) (cutoff : Time) (st : Store)
    → 0 < size
    → length st.intervals < fuel
    → IsUnique interval_id st.intervals
    → let r = delete_simulated_intervals size fuel cutoff st in
      let old = is_old_simulated st.simulated_outlets cutoff in
      (r.is_finished ≡ true)
      × (r.total ≡ length (select old st.intervals))
      × (r.state.intervals ≡ select (λ a. not (old a)) st.intervals)
unfolding delete_simulated_intervals
delete_simulated_intervals_lem size fuel cutoff st pos f keyed =
    swept_lem (λ s. s.intervals) interval_id (is_old_simulated st.simulated_outlets cutoff) size
      (delete_simulated_chunk size st.simulated_outlets cutoff) (λ s. refl) _ fuel st pos f
      (keyed, refl)

pub roll_up_intervals_lem :
    (size fuel : ℕ) (cutoff : Time) (st : Store)
    → 0 < size
    → length st.intervals < fuel
    → IsUnique interval_id st.intervals
    → let r = roll_up_intervals size fuel cutoff st in
      (r.is_finished ≡ true)
      × (r.total ≡ length (select (is_old cutoff) st.intervals))
      × (r.state.intervals ≡ select (λ a. not (is_old cutoff a)) st.intervals)
unfolding roll_up_intervals
roll_up_intervals_lem size fuel cutoff st pos f keyed =
    swept_lem (λ s. s.intervals) interval_id (is_old cutoff) size (roll_up_chunk size cutoff)
      (λ s. refl) _ fuel st pos f (keyed, refl)

module _ {ℓ} {A : Type ℓ} (id : A → ℕ) where
  select-All {κ} : (Q : A → Type κ) (p : A → Bool) (xs : List A) → All Q xs → All Q (select p xs)
  select-All Q p [] h = h
  select-All Q p (x ∷ xs) h = elim (Bool-cases (p x)) [
    | inl e ↦ rw e ((h.0, select-All Q p xs h.1))
    | inr e ↦ rw e (select-All Q p xs h.1)
  ]

  select-IsUnique : (p : A → Bool) (xs : List A) → IsUnique id xs → IsUnique id (select p xs)
  select-IsUnique p [] h = h
  select-IsUnique p (x ∷ xs) h = elim (Bool-cases (p x)) [
    | inl e ↦ rw e ((select-All _ p xs h.0, select-IsUnique p xs h.1))
    | inr e ↦ rw e (select-IsUnique p xs h.1)
  ]

-- what a sweep of the intervals leaves alone
abbrev SameElse : Store → Store → Type 0
SameElse st s = (s.rows ≡ st.rows) × (s.monthly ≡ st.monthly)

delete_simulated_intervals-SameElse :
    (size fuel : ℕ) (cutoff : Time) (st : Store)
    → SameElse st (delete_simulated_intervals size fuel cutoff st).state
unfolding delete_simulated_intervals
delete_simulated_intervals-SameElse size fuel cutoff st =
    sweep-keeps (SameElse st) (λ _. 0) (simulated_chunk size st.simulated_outlets cutoff)
      (delete_simulated_chunk size st.simulated_outlets cutoff) (λ s h. h) fuel 0 st (refl, refl)

roll_up_intervals-rows :
    (size fuel : ℕ) (cutoff : Time) (st : Store)
    → (roll_up_intervals size fuel cutoff st).state.rows ≡ st.rows
unfolding roll_up_intervals
roll_up_intervals-rows size fuel cutoff st =
    sweep-keeps (λ s. s.rows ≡ st.rows) (λ _. 0) (old_chunk size cutoff) (roll_up_chunk size cutoff)
      (λ s h. h) fuel 0 st refl

-- the intervals behind the deletion of the simulated ones
abbrev pub real_intervals : Time → Store → List Interval
real_intervals now st =
    select
      (λ a. not (is_old_simulated st.simulated_outlets (now - days simulated_intervals_days) a))
      st.intervals

-- what the intervals and the monthly rows of a key hold together is the same
abbrev pub IsMovedOnly : Key → Store → Store → Type 0
IsMovedOnly k st st' =
    (held energy k st' ≡ held energy k st)
    × (held water k st' ≡ held water k st)
    × (counted k st' ≡ counted k st)

-- two states with the same intervals and the same monthly rows hold the same
IsMovedOnly-same :
    (k : Key) (s st st' : Store)
    → s.intervals ≡ st.intervals
    → s.monthly ≡ st.monthly
    → IsMovedOnly k s st'
    → IsMovedOnly k st st'
IsMovedOnly-same k s st st' e m (h, w, c) =
    (h ∙ held_same energy, w ∙ held_same water, c ∙ counted_same)
  where
    held_same : (a : Amount) → held a k s ≡ held a k st
    held_same a =
        ap (λ l. total a k (map figures_of l) +ℤ total a k s.monthly) e
        ∙ ap (λ l. total a k (map figures_of st.intervals) +ℤ total a k l) m

    counted_same : counted k s ≡ counted k st
    counted_same =
        ap (λ l. count k (map figures_of l) + count k s.monthly) e
        ∙ ap (λ l. count k (map figures_of st.intervals) + count k l) m

abbrev pub IsSwept : Time → Store → Report × Store → Type 0
IsSwept now st (report, st') =
    ((t : Log)
      → (st'.rows t ≡ select (λ a. not (is_old_stamp (now - days (days_of t)) a)) (st.rows t))
        × (report.deleted t ≡ length (select (is_old_stamp (now - days (days_of t))) (st.rows t))))
    × (st'.intervals
        ≡ select (λ a. not (is_old (now - days intervals_days) a)) (real_intervals now st))
    × (report.consumption_intervals
        ≡ length (select (is_old (now - days intervals_days)) (real_intervals now st)))
    × (report.simulated_intervals
        ≡ length (
            select (is_old_simulated st.simulated_outlets (now - days simulated_intervals_days))
              st.intervals))
    × ((k : Key) → IsMovedOnly k (record st { intervals = real_intervals now st }) st')

-- One run is one deletion: with distinct keys in every table, each of the fourteen tables loses exactly
-- the rows that are older than its window, the old intervals of simulated outlets are deleted, the
-- other old intervals go into the monthly rows (for each outlet, month and Smart Mode, the energy, the
-- water and the number of intervals that intervals and monthly rows hold together are those from
-- before, less the deleted intervals of simulated outlets), and the report counts the rows deleted of
-- each table, the simulated intervals and the intervals rolled up.
pub run_lem :
    (now : Time) (st : Store)
    → ((t : Log) → IsUnique stamp_id (st.rows t))
    → IsUnique interval_id st.intervals
    → IsSwept now st (run now st)
unfolding run
run_lem now st logs keyed =
    let swept = record st { rows = λ t. (swept_log now st t).state } in
    let sim =
      delete_simulated_intervals_lem chunk (suc (length st.intervals))
        (now - days simulated_intervals_days) swept (omega arith) (omega arith) keyed in
    let middle = (swept_simulated now swept).state in
    let same =
      (delete_simulated_intervals-SameElse chunk (suc (length st.intervals))
        (now - days simulated_intervals_days) swept).1 in
    let rolled_up =
      (roll_up_intervals chunk (suc (length middle.intervals)) (now - days intervals_days)
        middle).state in
    let unique =
      subst (IsUnique interval_id) (sym sim.2) (select-IsUnique interval_id _ st.intervals keyed) in
    let rolled =
      roll_up_intervals_lem chunk (suc (length middle.intervals)) (now - days intervals_days) middle
        (omega arith) (omega arith) unique in
    let log = λ (t : Log).
      delete_older_lem chunk (suc (length (st.rows t))) (now - days (days_of t)) (st.rows t)
        (omega arith) (omega arith) (logs t) in
    let rows =
      roll_up_intervals-rows chunk (suc (length middle.intervals)) (now - days intervals_days)
        middle
      ∙ (delete_simulated_intervals-SameElse chunk (suc (length st.intervals))
          (now - days simulated_intervals_days) swept).0 in
    (
      λ t. (ap (λ f. f t) rows ∙ (log t).2, (log t).1),
      rolled.2 ∙ ap (select (λ a. not (is_old (now - days intervals_days) a))) sim.2,
      rolled.1 ∙ ap (λ l. length (select (is_old (now - days intervals_days)) l)) sim.2,
      sim.1,
      λ k.
          IsMovedOnly-same k middle (record st { intervals = real_intervals now st }) rolled_up
            sim.2 same
            (roll_up_intervals-conserves chunk (suc (length middle.intervals))
              (now - days intervals_days) middle k unique),
    )
