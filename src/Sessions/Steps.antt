-- ===== src/Sessions/Steps.antt =====
-- What `apply` may do to the row with one key.
use erp_iot.Base.{
  ℕ, ◌≡◌, ◌⊎◌, inl, inr, refl, sym, ap, ◌∙◌, Bool, true, false, Option, none, some, arith,
  Bool-cases, ◌==◌, ==_iff, is_some, some-injective, if◌then◌else◌,
}
use erp_iot.Base.Json.{Json}
use erp_iot.Base.Time.{Time}
use erp_iot.Cabinet.SessionPayload.{ParsedSession, ok, Ensures-elim}
use erp_iot.Sessions.{
  ErpSession, Cabinet, Outlet, Db, IsKeyed, row_at, updated_row, FromIso, synced, Applied, updated,
  unknown, already_billed, invalid, is_billed, apply,
}
use erp_iot.Sessions.Rows.{row_at-updated}
use erp_iot.Sessions.Written.{IsWritten, IsLogged, apply-IsLogged}

-- What may differ in the row with one key.
pub record IsStep (cab : Cabinet) (pull : Bool) (now : Time) (s s' : ErpSession) : Type 0 where
  pub in_cabinet : s.cabinet_id ≡ cab.id
  pub not_billed : is_billed s.billing_state ≡ false
  pub parsed : ParsedSession
  pub outlet : Outlet
  pub activated : Option Time
  pub result : s' ≡ synced parsed outlet activated pull now s

synced-id :
    (ps : ParsedSession) (o : Outlet) (t : Option Time) (pull : Bool) (now : Time) (s : ErpSession)
    → (synced ps o t pull now s).id ≡ s.id
unfolding synced
synced-id ps o t pull now s = ground arith

written-row :
    (db : Db) (cab : Cabinet) (pull : Bool) (now : Time) (db' : Db) (id : ℕ) (s : ErpSession)
    → IsWritten db cab pull now db'
    → row_at id db.sessions ≡ some s
    → (row_at id db'.sessions ≡ some s)
      ⊎ ((s' : ErpSession) × (row_at id db'.sessions ≡ some s') × IsStep cab pull now s s')
written-row db cab pull now db' id s w h =
    let s' = synced w.parsed w.outlet w.activated pull now w.row in
    let rows_after : row_at id db'.sessions ≡ row_at id (updated_row s' db.sessions) =
      ap (λ d. row_at id d.sessions) w.result in
    let at_updated = row_at-updated id s' db.sessions in
    elim (Bool-cases (s'.id == id)) [
      | inl b ↦
          let same_id : w.row.id ≡ id =
            sym (synced-id w.parsed w.outlet w.activated pull now w.row) ∙ (==_iff s'.id id).0 b in
          let e : w.row ≡ s =
            some-injective (sym w.held ∙ ap (λ i. row_at i db.sessions) same_id ∙ h) in
          inr (
            s',
            rows_after ∙ at_updated ∙ at_key s' (s'.id == id) (row_at id db.sessions) b h,
            moved w s' refl e,
          )
      | inr b ↦ inl (rows_after ∙ at_updated ∙ rw b h)
    ]
  where
    at_key :
        (s' : ErpSession) (b : Bool) (o : Option ErpSession)
        → b ≡ true
        → o ≡ some s
        → (if b then (if is_some o then some s' else none) else o) ≡ some s'
    at_key s' b o e f = rw (e, f) refl

    moved :
        (w : IsWritten db cab pull now db') (s' : ErpSession)
        → s' ≡ synced w.parsed w.outlet w.activated pull now w.row
        → w.row ≡ s
        → IsStep cab pull now s s'
    moved w s' e f = record {
      in_cabinet = ap (λ r. r.cabinet_id) (sym f) ∙ (==_iff w.row.cabinet_id cab.id).0 w.in_cabinet;
      not_billed = ap (λ r. is_billed r.billing_state) (sym f) ∙ w.not_billed;
      parsed = w.parsed;
      outlet = w.outlet;
      activated = w.activated;
      result = e ∙ ap (synced w.parsed w.outlet w.activated pull now) f;
    }

-- After a call the row with a key is the same, or it is this cabinet's, not billed, and synced.
pub apply-row :
    (f : FromIso) (db : Db) (cab : Cabinet) (raw : Json) (pull : Bool) (now : Time) (a : Applied)
    (db' : Db) (id : ℕ) (s : ErpSession)
    → IsKeyed db.sessions
    → apply f db cab raw pull now ≡ ok (a, db')
    → row_at id db.sessions ≡ some s
    → (row_at id db'.sessions ≡ some s)
      ⊎ ((s' : ErpSession) × (row_at id db'.sessions ≡ some s') × IsStep cab pull now s s')
apply-row f db cab raw pull now a db' id s k e h =
    by_answer a (Ensures-elim (apply-IsLogged f db cab raw pull now k) e)
  where
    by_answer :
        (a : Applied)
        → IsLogged db cab pull now (a, db')
        → (row_at id db'.sessions ≡ some s)
          ⊎ ((s' : ErpSession) × (row_at id db'.sessions ≡ some s') × IsStep cab pull now s s')
    by_answer updated l = written-row db cab pull now db' id s l h
    by_answer unknown l = inl (ap (λ d. row_at id d.sessions) l ∙ h)
    by_answer already_billed l = inl (ap (λ d. row_at id d.sessions) l ∙ h)
    by_answer invalid l = inl (ap (λ d. row_at id d.sessions) l ∙ h)
