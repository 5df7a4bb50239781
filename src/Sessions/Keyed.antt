-- ===== src/Sessions/Keyed.antt =====
-- The keys of the sessions under updates of rows, and under `apply`.
use erp_iot.Base.{
  ℕ, ◌≡◌, sym, ap, ◌∙◌, subst, Bool, false, some, List, [], ◌∷◌, map, arith, All, Bool-cases, inl,
  inr, ◌==◌, ==_iff, first-hit, first-miss, some-injective, if◌then◌else◌,
}
use erp_iot.Base.Json.{Json}
use erp_iot.Base.Time.{Time}
use erp_iot.Cabinet.SessionPayload.{ok, Ensures-elim}
use erp_iot.Sessions.{
  ErpSession, Cabinet, Db, IsKeyed, row_at, updated_row, FromIso, Applied, synced, updated, unknown,
  already_billed, invalid, apply,
}
use erp_iot.Sessions.Written.{IsLogged, apply-IsLogged}

module _ (f : ErpSession → ErpSession) (same_id : (r : ErpSession) → (f r).id ≡ r.id) where
  map-fresh :
      (k : ℕ) (rows : List ErpSession)
      → All (λ s. (s.id == k) ≡ false) rows
      → All (λ s. (s.id == k) ≡ false) (map f rows)
  map-fresh k [] h = h
  map-fresh k (r ∷ rows) h =
      (subst (λ (n : ℕ). (n == k) ≡ false) (sym (same_id r)) h.0, map-fresh k rows h.1)

  pub map-IsKeyed : (rows : List ErpSession) → IsKeyed rows → IsKeyed (map f rows)
  map-IsKeyed [] h = h
  map-IsKeyed (r ∷ rows) h = (
    subst (λ (n : ℕ). All (λ s. (s.id == n) ≡ false) (map f rows)) (sym (same_id r))
        (map-fresh r.id rows h.0),
    map-IsKeyed rows h.1,
  )

  pub row_at-map :
      (id : ℕ) (rows : List ErpSession) (s : ErpSession)
      → row_at id rows ≡ some s
      → row_at id (map f rows) ≡ some (f s)
  unfolding row_at
  row_at-map id [] s h = absurd (ground arith)
  row_at-map id (r ∷ rows) s h = elim (Bool-cases (r.id == id)) [
    | inl e ↦
        first-hit (λ x. x.id == id) (f r) (map f rows) (ap (λ (n : ℕ). n == id) (same_id r) ∙ e)
        ∙ ap (λ x. some (f x)) (some-injective (sym (first-hit (λ x. x.id == id) r rows e) ∙ h))
    | inr e ↦
        first-miss (λ x. x.id == id) (f r) (map f rows) (ap (λ (n : ℕ). n == id) (same_id r) ∙ e)
        ∙ row_at-map id rows s (sym (first-miss (λ x. x.id == id) r rows e) ∙ h)
  ]

update_id : (s r : ErpSession) → (if r.id == s.id then s else r).id ≡ r.id
update_id s r = elim (Bool-cases (r.id == s.id)) [
  | inl e ↦ ap (λ b. (if b then s else r).id) e ∙ sym ((==_iff r.id s.id).0 e)
  | inr e ↦ ap (λ b. (if b then s else r).id) e
]

updated_row-IsKeyed :
    (s : ErpSession) (rows : List ErpSession) → IsKeyed rows → IsKeyed (updated_row s rows)
unfolding updated_row
updated_row-IsKeyed s rows = map-IsKeyed _ (update_id s) rows

pub apply-IsKeyed :
    (f : FromIso) (db : Db) (cab : Cabinet) (raw : Json) (pull : Bool) (now : Time) (a : Applied)
    (db' : Db)
    → IsKeyed db.sessions
    → apply f db cab raw pull now ≡ ok (a, db')
    → IsKeyed db'.sessions
apply-IsKeyed f db cab raw pull now a db' k e =
    by_answer a (Ensures-elim (apply-IsLogged f db cab raw pull now k) e)
  where
    by_answer : (a : Applied) → IsLogged db cab pull now (a, db') → IsKeyed db'.sessions
    by_answer updated l =
        subst (λ d. IsKeyed d.sessions) (sym l.result)
          (updated_row-IsKeyed (synced l.parsed l.outlet l.activated pull now l.row) db.sessions k)
    by_answer unknown l = subst (λ d. IsKeyed d.sessions) (sym l) k
    by_answer already_billed l = subst (λ d. IsKeyed d.sessions) (sym l) k
    by_answer invalid l = subst (λ d. IsKeyed d.sessions) (sym l) k
