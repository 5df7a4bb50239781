-- ===== src/Sessions/Rows.antt =====
-- The look-up of a session by its key, and what an update does to it.
use erp_iot.Base.{
  ℕ, ◌≡◌, inl, inr, refl, sym, ◌∙◌, subst, Bool, false, none, some, List, [], ◌∷◌, arith,
  Bool-cases, ◌==◌, ==_iff, is_some, first, first-All, first-hit, first-miss, some-injective,
  if◌then◌else◌,
}
use erp_iot.Sessions.{ErpSession, IsKeyed, row_at, updated_row}

row_at-here : (r : ErpSession) (rows : List ErpSession) → row_at r.id (r ∷ rows) ≡ some r
unfolding row_at
row_at-here r rows = rw ((==_iff r.id r.id).1 refl) refl

row_at-past :
    (id : ℕ) (r : ErpSession) (rows : List ErpSession)
    → (r.id == id) ≡ false
    → row_at id (r ∷ rows) ≡ row_at id rows
unfolding row_at
row_at-past id r rows e = rw e refl

differ_sym : (a b : ℕ) → (a == b) ≡ false → (b == a) ≡ false
differ_sym a b h = ground arith

pub keyed_row :
    (p : ErpSession → Bool) (rows : List ErpSession) (s : ErpSession)
    → IsKeyed rows
    → first p rows ≡ some s
    → row_at s.id rows ≡ some s
keyed_row p [] s k h = cc
keyed_row p (r ∷ rows) s (k, ks) h = elim (Bool-cases (p r)) [
  | inl b ↦
      let e : r ≡ s = some-injective (sym (first-hit p r rows b) ∙ h) in
      subst (λ t. row_at t.id (r ∷ rows) ≡ some t) e (row_at-here r rows)
  | inr b ↦
      let h' = sym (first-miss p r rows b) ∙ h in
      let away = first-All (λ t. (t.id == r.id) ≡ false) p rows s k h' in
      row_at-past s.id r rows (differ_sym s.id r.id away) ∙ keyed_row p rows s ks h'
]

-- Behind an update of a row of the table, a look-up finds the new row at its key only.
pub row_at-updated :
    (id : ℕ) (s' : ErpSession) (rows : List ErpSession)
    → row_at id (updated_row s' rows) ≡ (
        if s'.id == id
        then (if is_some (row_at id rows) then some s' else none)
        else row_at id rows)
unfolding row_at updated_row
row_at-updated id s' [] = elim (Bool-cases (s'.id == id)) [ inl b ↦ rw b refl | inr b ↦ rw b refl ]
row_at-updated id s' (r ∷ rows) =
    ground (arith, row_at-updated id s' rows, ==_iff r.id s'.id, ==_iff s'.id id, ==_iff r.id id)
