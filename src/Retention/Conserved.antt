-- ===== src/Retention/Conserved.antt =====
-- backend/app/services/retention.py: the roll-up keeps the totals of every outlet, month and Smart Mode.
use erp_iot.Base.{
  take, ℕ, zero, suc, subst, ◌+◌, ◌≡◌, refl, ap, sym, ◌∙◌, Bool, true, Option, none, some, List, [],
  ◌∷◌, map, select, if◌then◌else◌, Bool-cases, inl, inr, arith,
}
use erp_iot.Base.Int.{ℤ, pos, ◌+ℤ◌, int_laws, zero-+ℤ, +ℤ_comm, +ℤ_assoc, +ℤ_left_comm}
use erp_iot.Base.Time.{Time}
use erp_iot.Collector.{Interval}
use erp_iot.Retention.{Store, interval_id, is_old, old_chunk, roll_up_chunk, roll_up_intervals}
use erp_iot.Retention.Chunks.{IsUnique, after_chunk}
use erp_iot.Retention.Removed.{drop_first, after_chunk_lem, drop_first-IsUnique, sweep-keeps}
use erp_iot.Retention.Monthly.{
  Key, Figures, same_key, or_zero, plus, blank, merged, tally, tally_all, figures_of, aggregated,
}

-- an amount of the figures, and how it behaves when figures are merged
pub record Amount : Type 0 where
  pub get : Figures → Option ℤ
  pub get-blank : (k : Key) → get (blank k) ≡ none
  pub get-merged : (m f : Figures) → get (merged m f) ≡ plus (get m) (get f)

abbrev pub energy : Amount
energy = record { get = λ f. f.energy_kwh; get-blank = λ k. refl; get-merged = λ m f. refl }

abbrev pub water : Amount
water = record { get = λ f. f.water_liters; get-blank = λ k. refl; get-merged = λ m f. refl }

abbrev pub only_at : Key → Figures → ℤ → ℤ
only_at k f z = if same_key f.key k then z else pos 0

-- the sum of an amount over the entries of one key
pub total : Amount → Key → List Figures → ℤ
total a k [] = pos 0
total a k (f ∷ fs) = only_at k f (or_zero (a.get f)) +ℤ total a k fs

pub count : Key → List Figures → ℕ
count k [] = 0
count k (f ∷ fs) = (if same_key f.key k then f.interval_count else 0) + count k fs

same_key-same : (a b k : Key) → same_key a b ≡ true → same_key a k ≡ same_key b k
same_key-same a b k h = ground arith

same_key_refl : (a : Key) → same_key a a ≡ true
same_key_refl a = ground arith

only_at-zero :
    (k : Key) (f : Figures) (z : ℤ) → only_at k f z +ℤ only_at k f (pos 0) ≡ only_at k f z
only_at-zero k f z = elim (Bool-cases (same_key f.key k)) [
  | inl e ↦ rw e (omega int_laws)
  | inr e ↦ rw e (omega int_laws)
]

or_zero-plus : (x y : Option ℤ) → or_zero (plus x y) ≡ or_zero x +ℤ or_zero y
or_zero-plus x none = omega int_laws
or_zero-plus x (some z) = refl

only_at-plus :
    (k : Key) (m : Figures) (x y : ℤ) → only_at k m (x +ℤ y) ≡ only_at k m x +ℤ only_at k m y
only_at-plus k m x y = elim (Bool-cases (same_key m.key k)) [
  | inl e ↦ rw e refl
  | inr e ↦ rw e (sym (zero-+ℤ (pos 0)))
]

only_at-merged :
    (a : Amount) (k : Key) (m f : Figures)
    → same_key m.key f.key ≡ true
    → only_at k (merged m f) (or_zero (a.get (merged m f)))
      ≡ only_at k f (or_zero (a.get f)) +ℤ only_at k m (or_zero (a.get m))
only_at-merged a k m f e =
    ap (λ z. only_at k m (or_zero z)) (a.get-merged m f)
    ∙ ap (only_at k m) (or_zero-plus (a.get m) (a.get f))
    ∙ only_at-plus k m _ _
    ∙ ap (λ b. only_at k m (or_zero (a.get m)) +ℤ (if b then or_zero (a.get f) else pos 0))
        (same_key-same m.key f.key k e)
    ∙ +ℤ_comm _ _

total-tally :
    (a : Amount) (k : Key) (f : Figures) (ms : List Figures)
    → total a k (tally f ms) ≡ only_at k f (or_zero (a.get f)) +ℤ total a k ms
unfolding total tally
total-tally a k f [] =
    ap (λ z. z +ℤ pos 0)
      (only_at-merged a k (blank f.key) f (same_key_refl f.key)
        ∙ ap (λ z. only_at k f (or_zero (a.get f)) +ℤ only_at k f (or_zero z)) (a.get-blank f.key)
        ∙ only_at-zero k f _)
total-tally a k f (m ∷ ms) = elim (Bool-cases (same_key m.key f.key)) [
  | inl e ↦ rw e (ap (λ z. z +ℤ total a k ms) (only_at-merged a k m f e) ∙ +ℤ_assoc _ _ _)
  | inr e ↦
      rw e
        (ap (λ z. only_at k m (or_zero (a.get m)) +ℤ z) (total-tally a k f ms) ∙ +ℤ_left_comm _ _ _)
]

count-tally :
    (k : Key) (f : Figures) (ms : List Figures)
    → count k (tally f ms) ≡ (if same_key f.key k then f.interval_count else 0) + count k ms
unfolding count tally
count-tally k f [] = ground arith
count-tally k f (m ∷ ms) = ground (arith, same_key-same m.key f.key k, count-tally k f ms)

total-tally_all :
    (a : Amount) (k : Key) (fs ms : List Figures)
    → total a k (tally_all fs ms) ≡ total a k fs +ℤ total a k ms
unfolding tally_all total
total-tally_all a k [] ms = sym (zero-+ℤ _)
total-tally_all a k (f ∷ fs) ms =
    total-tally_all a k fs (tally f ms)
    ∙ ap (λ z. total a k fs +ℤ z) (total-tally a k f ms)
    ∙ +ℤ_left_comm _ _ _
    ∙ sym (+ℤ_assoc _ _ _)

count-tally_all :
    (k : Key) (fs ms : List Figures) → count k (tally_all fs ms) ≡ count k fs + count k ms
unfolding tally_all count
count-tally_all k [] ms = omega arith
count-tally_all k (f ∷ fs) ms = omega (arith, count-tally_all k fs (tally f ms), count-tally k f ms)

-- what the intervals and the monthly rows hold together
abbrev pub held : Amount → Key → Store → ℤ
held a k st = total a k (map figures_of st.intervals) +ℤ total a k st.monthly

abbrev pub counted : Key → Store → ℕ
counted k st = count k (map figures_of st.intervals) + count k st.monthly

regroup : (x y z : ℤ) → y +ℤ ((x +ℤ pos 0) +ℤ z) ≡ (x +ℤ y) +ℤ z
regroup x y z = omega int_laws

total-drop_first :
    (a : Amount) (k : Key) (n : ℕ) (p : Interval → Bool) (rows : List Interval)
    → total a k (map figures_of (take n (select p rows)))
        +ℤ total a k (map figures_of (drop_first n p rows))
      ≡ total a k (map figures_of rows)
unfolding total
total-drop_first a k zero p rows = zero-+ℤ _
total-drop_first a k (suc n) p [] = zero-+ℤ _
total-drop_first a k (suc n) p (r ∷ rows) = elim (Bool-cases (p r)) [
  | inl e ↦ rw e (
      +ℤ_assoc _ _ _
      ∙ ap (λ z. only_at k (figures_of r) (or_zero (a.get (figures_of r))) +ℤ z)
          (total-drop_first a k n p rows))
  | inr e ↦ rw e (
      +ℤ_left_comm _ _ _
      ∙ ap (λ z. only_at k (figures_of r) (or_zero (a.get (figures_of r))) +ℤ z)
          (total-drop_first a k (suc n) p rows))
]

count-drop_first :
    (k : Key) (n : ℕ) (p : Interval → Bool) (rows : List Interval)
    → count k (map figures_of (take n (select p rows)))
        + count k (map figures_of (drop_first n p rows))
      ≡ count k (map figures_of rows)
unfolding count
count-drop_first k zero p rows = omega arith
count-drop_first k (suc n) p [] = omega arith
count-drop_first k (suc n) p (r ∷ rows) = elim (Bool-cases (p r)) [
  | inl e ↦ rw e (omega (arith, count-drop_first k n p rows))
  | inr e ↦ rw e (omega (arith, count-drop_first k (suc n) p rows))
]

module _ (size : ℕ) (cutoff : Time) (st : Store) (keyed : IsUnique interval_id st.intervals) where
  left_of :
      after_chunk interval_id size (is_old cutoff) st.intervals
      ≡ drop_first size (is_old cutoff) st.intervals
  left_of = after_chunk_lem interval_id size (is_old cutoff) st.intervals keyed

  held-roll_up_chunk :
      (a : Amount) (k : Key) → held a k (roll_up_chunk size cutoff st) ≡ held a k st
  unfolding total
  held-roll_up_chunk a k =
      ap (λ l. total a k (map figures_of l) +ℤ total a k (roll_up_chunk size cutoff st).monthly)
        left_of
      ∙ ap (λ z. total a k (map figures_of (drop_first size (is_old cutoff) st.intervals)) +ℤ z)
          (total-tally_all a k (aggregated (old_chunk size cutoff st)) st.monthly
            ∙ ap (λ z. z +ℤ total a k st.monthly)
                (total-tally_all a k (map figures_of (old_chunk size cutoff st)) []))
      ∙ regroup _ _ _
      ∙ ap (λ z. z +ℤ total a k st.monthly) (total-drop_first a k size (is_old cutoff) st.intervals)

  counted-roll_up_chunk : (k : Key) → counted k (roll_up_chunk size cutoff st) ≡ counted k st
  unfolding count
  counted-roll_up_chunk k = omega (
    arith,
    ap (λ l. count k (map figures_of l)) left_of,
    count-tally_all k (aggregated (old_chunk size cutoff st)) st.monthly,
    count-tally_all k (map figures_of (old_chunk size cutoff st)) [],
    count-drop_first k size (is_old cutoff) st.intervals,
  )

  roll_up_chunk-IsUnique : IsUnique interval_id (roll_up_chunk size cutoff st).intervals
  roll_up_chunk-IsUnique =
      subst (IsUnique interval_id) (sym left_of)
        (drop_first-IsUnique interval_id size (is_old cutoff) st.intervals keyed)

-- what a roll-up keeps
record IsKept (k : Key) (e w : ℤ) (n : ℕ) (st : Store) : Type 0 where
  keyed : IsUnique interval_id st.intervals
  energy_kept : held energy k st ≡ e
  water_kept : held water k st ≡ w
  count_kept : counted k st ≡ n

roll_up_chunk-IsKept :
    (size : ℕ) (cutoff : Time) (k : Key) (e w : ℤ) (n : ℕ) (st : Store)
    → IsKept k e w n st
    → IsKept k e w n (roll_up_chunk size cutoff st)
roll_up_chunk-IsKept size cutoff k e w n st h = record {
  keyed = roll_up_chunk-IsUnique size cutoff st h.keyed;
  energy_kept = held-roll_up_chunk size cutoff st h.keyed energy k ∙ h.energy_kept;
  water_kept = held-roll_up_chunk size cutoff st h.keyed water k ∙ h.water_kept;
  count_kept = counted-roll_up_chunk size cutoff st h.keyed k ∙ h.count_kept;
}

-- For each outlet, month and Smart Mode, the energy, the water and the number of intervals that the
-- intervals and the monthly rows hold together are the same behind any number of chunks: a roll-up
-- that ends, and one that stops behind any of its commits, neither loses nor counts twice. The
-- intervals have distinct keys.
pub roll_up_intervals-conserves :
    (size fuel : ℕ) (cutoff : Time) (st : Store) (k : Key)
    → IsUnique interval_id st.intervals
    → let st' = (roll_up_intervals size fuel cutoff st).state in
      (held energy k st' ≡ held energy k st)
      × (held water k st' ≡ held water k st)
      × (counted k st' ≡ counted k st)
unfolding roll_up_intervals
roll_up_intervals-conserves size fuel cutoff st k keyed =
    let kept =
      sweep-keeps (IsKept k (held energy k st) (held water k st) (counted k st)) (λ _. 0)
        (old_chunk size cutoff) (roll_up_chunk size cutoff)
        (roll_up_chunk-IsKept size cutoff k _ _ _) fuel 0 st
        (record { keyed = keyed; energy_kept = refl; water_kept = refl; count_kept = refl }) in
    (kept.energy_kept, kept.water_kept, kept.count_kept)
