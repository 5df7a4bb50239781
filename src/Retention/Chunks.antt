-- ===== src/Retention/Chunks.antt =====
-- The chunked deletion that every sweep of backend/app/services/retention.py makes: the keys of at
-- most `size` old rows, then a DELETE of the rows with one of these keys.
use erp_iot.Base.{
  ℕ, zero, suc, ◌+◌, Bool, true, false, not, length, List, [], ◌∷◌, map, any, select, take, All,
  ◌==◌, ◌≡◌,
}

module _ {ℓ} {A : Type ℓ} (id : A → ℕ) where
  -- `delete(model).where(pk.in_(ids))`
  abbrev pub without : List ℕ → List A → List A
  without ids rows = select (λ a. not (any (λ i. i == id a) ids)) rows

  -- the primary key is unique
  abbrev pub IsUnique : List A → Type 0
  IsUnique [] = Unit {0}
  IsUnique (a ∷ rows) = All (λ b. (id b == id a) ≡ false) rows × IsUnique rows

  module _ (size : ℕ) (p : A → Bool) where
    abbrev pub chunk_of : List A → List A
    chunk_of rows = take size (select p rows)

    abbrev pub after_chunk : List A → List A
    after_chunk rows = without (map id (chunk_of rows)) rows

pub record Progress {ℓ} (S : Type ℓ) : Type ℓ where
  pub is_finished : Bool
  pub total : ℕ
  pub state : S

-- `while True`: a chunk is read; an empty one ends the loop, another is worked off and committed. With
-- no fuel left the loop stands behind a commit, as it does after a crash.
unfoldable pub sweep {ℓ κ} :
    {S : Type ℓ} {A : Type κ} → (S → List A) → (S → S) → (fuel total : ℕ) → S → Progress S
sweep chunk work zero total s = record { is_finished = false; total = total; state = s }
sweep chunk work (suc fuel) total s = elim (chunk s) [
  | [] ↦ record { is_finished = true; total = total; state = s }
  | a ∷ rest ↦ sweep chunk work fuel (total + length (a ∷ rest)) (work s)
]
