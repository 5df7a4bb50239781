-- ===== src/Sessions/Kept.antt =====
-- What `apply` leaves alone in the sessions, whatever the cabinet sends.
use erp_iot.Base.{
  ℕ, ◌≡◌, ◌≢◌, inl, inr, refl, sym, ap, ◌∙◌, Bool, true, false, Option, some, arith, if◌then◌else◌,
}
use erp_iot.Base.Json.{Json}
use erp_iot.Base.Time.{Time}
use erp_iot.Cabinet.SessionPayload.{ParsedSession, ok}
use erp_iot.Sessions.{
  ErpSession, Cabinet, Outlet, Db, billed, manual_review, IsKeyed, row_at, FromIso, synced, Applied,
  is_billed, apply, needs_review,
}
use erp_iot.Sessions.Steps.{apply-row}

synced-review :
    (ps : ParsedSession) (o : Outlet) (t : Option Time) (pull : Bool) (now : Time) (s : ErpSession)
    → s.billing_state ≡ manual_review
    → (synced ps o t pull now s).billing_state ≡ manual_review
unfolding synced
synced-review ps o t pull now s h = rw h (either (needs_review ps s o))
  where
    either : (b : Bool) → (if b then manual_review else manual_review) ≡ manual_review
    either true = refl
    either false = refl

synced_webhook-reconciled :
    (ps : ParsedSession) (o : Outlet) (t : Option Time) (now : Time) (s : ErpSession)
    → (synced ps o t false now s).reconciled_at ≡ s.reconciled_at
unfolding synced
synced_webhook-reconciled ps o t now s = ground arith

-- A session that is already billed is never touched again: whatever payload a cabinet sends, by pull
-- or by webhook, its row stays exactly as it is. The keys of the sessions are unique.
pub apply-billed :
    (f : FromIso) (db : Db) (cab : Cabinet) (raw : Json) (pull : Bool) (now : Time) (a : Applied)
    (db' : Db) (id : ℕ) (s : ErpSession)
    → IsKeyed db.sessions
    → apply f db cab raw pull now ≡ ok (a, db')
    → row_at id db.sessions ≡ some s
    → s.billing_state ≡ billed
    → row_at id db'.sessions ≡ some s
apply-billed f db cab raw pull now a db' id s k e h b =
    elim (apply-row f db cab raw pull now a db' id s k e h) [
      | inl same ↦ same
      | inr (s', held, step) ↦
          let clash : true ≡ false = ap is_billed (sym b) ∙ step.not_billed in cc
    ]

-- A payload of one cabinet never changes the row of a session of another cabinet.
pub apply-other_cabinet :
    (f : FromIso) (db : Db) (cab : Cabinet) (raw : Json) (pull : Bool) (now : Time) (a : Applied)
    (db' : Db) (id : ℕ) (s : ErpSession)
    → IsKeyed db.sessions
    → apply f db cab raw pull now ≡ ok (a, db')
    → row_at id db.sessions ≡ some s
    → s.cabinet_id ≢ cab.id
    → row_at id db'.sessions ≡ some s
apply-other_cabinet f db cab raw pull now a db' id s k e h n =
    elim (apply-row f db cab raw pull now a db' id s k e h) [
      | inl same ↦ same
      | inr (s', held, step) ↦ absurd (n step.in_cabinet)
    ]

-- Manual review is sticky: a session in review is still there, and in review, after any payload.
pub apply-review :
    (f : FromIso) (db : Db) (cab : Cabinet) (raw : Json) (pull : Bool) (now : Time) (a : Applied)
    (db' : Db) (id : ℕ) (s : ErpSession)
    → IsKeyed db.sessions
    → apply f db cab raw pull now ≡ ok (a, db')
    → row_at id db.sessions ≡ some s
    → s.billing_state ≡ manual_review
    → (s' : ErpSession) × (row_at id db'.sessions ≡ some s') × (s'.billing_state ≡ manual_review)
apply-review f db cab raw pull now a db' id s k e h m =
    elim (apply-row f db cab raw pull now a db' id s k e h) [
      | inl same ↦ (s, same, m)
      | inr (s', held, step) ↦ (
        s',
        held,
        ap (λ r. r.billing_state) step.result
            ∙ synced-review step.parsed step.outlet step.activated pull now s m,
      )
    ]

-- Only the pull reconciles: a webhook leaves the reconciliation time of every session alone.
pub apply_webhook-reconciled :
    (f : FromIso) (db : Db) (cab : Cabinet) (raw : Json) (now : Time) (a : Applied) (db' : Db)
    (id : ℕ) (s : ErpSession)
    → IsKeyed db.sessions
    → apply f db cab raw false now ≡ ok (a, db')
    → row_at id db.sessions ≡ some s
    → (s' : ErpSession) × (row_at id db'.sessions ≡ some s') × (s'.reconciled_at ≡ s.reconciled_at)
apply_webhook-reconciled f db cab raw now a db' id s k e h =
    elim (apply-row f db cab raw false now a db' id s k e h) [
      | inl same ↦ (s, same, refl)
      | inr (s', held, step) ↦ (
        s',
        held,
        ap (λ r. r.reconciled_at) step.result
            ∙ synced_webhook-reconciled step.parsed step.outlet step.activated now s,
      )
    ]
