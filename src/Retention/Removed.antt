-- ===== src/Retention/Removed.antt =====
-- backend/app/services/retention.py: what one chunk of a sweep removes, and when a sweep ends.
use erp_iot.Base.{
  take, ℕ, zero, suc, ◌+◌, ◌<◌, ◌≡◌, ◌⊎◌, refl, ap, ◌∙◌, Bool, true, false, not, List, [], ◌∷◌, map,
  any, select, All, ◌==◌, if◌then◌else◌, length, Bool-cases, inl, inr, arith,
}
use erp_iot.Retention.Chunks.{without, IsUnique, chunk_of, after_chunk, sweep}

List-cases {ℓ} :
    {A : Type ℓ} (xs : List A) → (xs ≡ []) ⊎ ((a : A) × (rest : List A) × (xs ≡ a ∷ rest))
List-cases [] = inl refl
List-cases (a ∷ rest) = inr (a, rest, refl)

module _ {ℓ} {A : Type ℓ} where
  -- the list without the first `n` elements that pass
  abbrev pub drop_first : ℕ → (A → Bool) → List A → List A
  drop_first zero p rows = rows
  drop_first (suc n) p [] = []
  drop_first (suc n) p (x ∷ rows) =
      if p x then drop_first n p rows else x ∷ drop_first (suc n) p rows

  pub drop_first-All {κ} :
      (Q : A → Type κ) (n : ℕ) (p : A → Bool) (rows : List A)
      → All Q rows
      → All Q (drop_first n p rows)
  drop_first-All Q zero p rows h = h
  drop_first-All Q (suc n) p [] h = h
  drop_first-All Q (suc n) p (x ∷ rows) h = elim (Bool-cases (p x)) [
    | inl e ↦ rw e (drop_first-All Q n p rows h.1)
    | inr e ↦ rw e ((h.0, drop_first-All Q (suc n) p rows h.1))
  ]

  pub drop_first-length :
      (n : ℕ) (p : A → Bool) (rows : List A)
      → length (select p (drop_first n p rows)) + length (take n (select p rows))
        ≡ length (select p rows)
  drop_first-length zero p rows = omega arith
  drop_first-length (suc n) p [] = omega arith
  drop_first-length (suc n) p (x ∷ rows) = elim (Bool-cases (p x)) [
    | inl e ↦ rw e (omega (arith, drop_first-length n p rows))
    | inr e ↦ rw (e, e) (drop_first-length (suc n) p rows)
  ]

  pub drop_first-kept :
      (n : ℕ) (p : A → Bool) (rows : List A)
      → select (λ a. not (p a)) (drop_first n p rows) ≡ select (λ a. not (p a)) rows
  drop_first-kept zero p rows = refl
  drop_first-kept (suc n) p [] = refl
  drop_first-kept (suc n) p (x ∷ rows) = elim (Bool-cases (p x)) [
    | inl e ↦ rw e (drop_first-kept n p rows)
    | inr e ↦ rw (e, e) (ap (λ l. x ∷ l) (drop_first-kept (suc n) p rows))
  ]

module _ {ℓ} {A : Type ℓ} (id : A → ℕ) where
  without-fresh :
      (k : ℕ) (ids : List ℕ) (rows : List A)
      → All (λ b. (id b == k) ≡ false) rows
      → without id (k ∷ ids) rows ≡ without id ids rows
  without-fresh k ids [] h = refl
  without-fresh k ids (x ∷ rows) h = ground (arith, without-fresh k ids rows h.1)

  without-nil : (rows : List A) → without id [] rows ≡ rows
  without-nil [] = refl
  without-nil (x ∷ rows) = ap (λ l. x ∷ l) (without-nil rows)

  among-chunk :
      (k n : ℕ) (p : A → Bool) (rows : List A)
      → All (λ b. (id b == k) ≡ false) rows
      → any (λ i. i == k) (map id (take n (select p rows))) ≡ false
  among-chunk k zero p rows h = refl
  among-chunk k (suc n) p [] h = refl
  among-chunk k (suc n) p (x ∷ rows) h = elim (Bool-cases (p x)) [
    | inl e ↦ rw e (rw h.0 (among-chunk k n p rows h.1))
    | inr e ↦ rw e (among-chunk k (suc n) p rows h.1)
  ]

  without-hit :
      (x : A) (ids : List ℕ) (rows : List A)
      → without id (id x ∷ ids) (x ∷ rows) ≡ without id (id x ∷ ids) rows
  without-hit x ids rows = ground arith

  without-miss :
      (x : A) (ids : List ℕ) (rows : List A)
      → any (λ i. i == id x) ids ≡ false
      → without id ids (x ∷ rows) ≡ x ∷ without id ids rows
  without-miss x ids rows h = ground arith

  chunk-hit :
      (p : A → Bool) (x : A) (rows : List A) (n : ℕ)
      → p x ≡ true
      → chunk_of id (suc n) p (x ∷ rows) ≡ x ∷ take n (select p rows)
  chunk-hit p x rows n e = rw e refl

  chunk-miss :
      (p : A → Bool) (x : A) (rows : List A) (n : ℕ)
      → p x ≡ false
      → chunk_of id (suc n) p (x ∷ rows) ≡ take (suc n) (select p rows)
  chunk-miss p x rows n e = rw e refl

  -- one chunk removes the first `size` old rows and nothing else
  pub after_chunk_lem :
      (size : ℕ) (p : A → Bool) (rows : List A)
      → IsUnique id rows
      → after_chunk id size p rows ≡ drop_first size p rows
  after_chunk_lem zero p rows h = without-nil rows
  after_chunk_lem (suc n) p [] h = refl
  after_chunk_lem (suc n) p (x ∷ rows) h = elim (Bool-cases (p x)) [
    | inl e ↦
        ap (λ c. without id (map id c) (x ∷ rows)) (chunk-hit p x rows n e)
        ∙ without-hit x _ rows
        ∙ without-fresh (id x) _ rows h.0
        ∙ after_chunk_lem n p rows h.1
        ∙ rw e refl
    | inr e ↦
        ap (λ c. without id (map id c) (x ∷ rows)) (chunk-miss p x rows n e)
        ∙ without-miss x _ rows (among-chunk (id x) (suc n) p rows h.0)
        ∙ ap (λ l. x ∷ l) (after_chunk_lem (suc n) p rows h.1)
        ∙ rw e refl
  ]

  pub drop_first-IsUnique :
      (n : ℕ) (p : A → Bool) (rows : List A) → IsUnique id rows → IsUnique id (drop_first n p rows)
  drop_first-IsUnique zero p rows h = h
  drop_first-IsUnique (suc n) p [] h = h
  drop_first-IsUnique (suc n) p (x ∷ rows) h = elim (Bool-cases (p x)) [
    | inl e ↦ rw e (drop_first-IsUnique n p rows h.1)
    | inr e ↦ rw e ((drop_first-All _ (suc n) p rows h.0, drop_first-IsUnique (suc n) p rows h.1))
  ]

-- A loop that takes off what it reads ends, has read all that there was, and keeps the invariant.
module _ {ℓ κ ι} {S : Type ℓ} {A : Type κ} (Inv : S → Type ι) (left : S → ℕ) (chunk : S → List A)
    (work : S → S) where
  pub sweep_total :
      ((s : S) → Inv s → Inv (work s) × (left (work s) + length (chunk s) ≡ left s))
      → ((s : S) → Inv s → chunk s ≡ [] → left s ≡ 0)
      → (fuel total : ℕ) (s : S) → left s < fuel
      → Inv s
      → let r = sweep chunk work fuel total s in
        (r.is_finished ≡ true) × (r.total ≡ total + left s) × (left r.state ≡ 0)
  unfolding sweep
  sweep_total keep stop zero total s f h = absurd (omega arith)
  sweep_total keep stop (suc fuel) total s f h = elim (List-cases (chunk s)) [
    | inl e ↦ rw (sweep, e) (ground (arith, stop s h e))
    | inr (a, rest, e) ↦
        let (kept, less) = keep s h in
        let size : length (chunk s) ≡ suc (length rest) = ap length e in
        let rest_of =
          sweep_total keep stop fuel (total + length (a ∷ rest)) (work s) (omega arith) kept in
        rw (sweep, e) ((rest_of.0, omega arith, rest_of.2))
  ]

  pub sweep-keeps :
      ((s : S) → Inv s → Inv (work s))
      → (fuel total : ℕ) (s : S) → Inv s
      → Inv (sweep chunk work fuel total s).state
  unfolding sweep
  sweep-keeps keep zero total s h = h
  sweep-keeps keep (suc fuel) total s h = elim (List-cases (chunk s)) [
    | inl e ↦ rw (sweep, e) h
    | inr (a, rest, e) ↦ rw (sweep, e) (sweep-keeps keep fuel _ (work s) (keep s h))
  ]
