-- ===== src/Reconciler/Kept.antt =====
-- backend/app/services/reconciler.py over backend/app/services/session_sync.py: what a run leaves alone.
use erp_iot.Base.{
  ℕ, ◌≡◌, inl, inr, refl, ap, ◌∙◌, Bool, true, Option, some, List, map, if◌then◌else◌, Bool-cases,
}
use erp_iot.Base.Json.{Json}
use erp_iot.Base.Time.{Time}
use erp_iot.Cabinet.SessionPayload.{Result, ok, raise, ◌>>=◌}
use erp_iot.Sessions.{ErpSession, Cabinet, Db, FromIso, Applied, billed, IsKeyed, row_at, apply}
use erp_iot.Sessions.Kept.{apply-billed}
use erp_iot.Sessions.Keyed.{map-IsKeyed, row_at-map, apply-IsKeyed}
use erp_iot.Reconciler.{Api, Run, Pass, pulled, count, is_unconfirmed, confirmed}
use erp_iot.Reconciler.Range.{reconcile}
use erp_iot.Reconciler.Keeps.{Has, reconcile-keeps}

-- the row of a key, but for the time of its acknowledgement
pub record IsHeld (id : ℕ) (s : ErpSession) (db : Db) : Type 0 where
  pub keyed : IsKeyed db.sessions
  pub row : ErpSession
  pub there : row_at id db.sessions ≡ some row
  pub same : record row { ack_sent_at = s.ack_sent_at } ≡ s

-- the same row under an acknowledgement
confirmed-id : (cab : Cabinet) (now : Time) (s : ErpSession) → (confirmed cab now s).id ≡ s.id
confirmed-id cab now s = elim (Bool-cases (is_unconfirmed cab s)) [
  | inl e ↦ ap (λ b. (if b then record s { ack_sent_at = some now } else s).id) e
  | inr e ↦ ap (λ b. (if b then record s { ack_sent_at = some now } else s).id) e
]

confirmed-same :
    (cab : Cabinet) (now : Time) (s : ErpSession) (t : Option Time)
    → record (confirmed cab now s) { ack_sent_at = t } ≡ record s { ack_sent_at = t }
confirmed-same cab now s t = elim (Bool-cases (is_unconfirmed cab s)) [
  | inl e ↦
      ap (λ b. record (if b then record s { ack_sent_at = some now } else s) { ack_sent_at = t }) e
  | inr e ↦
      ap (λ b. record (if b then record s { ack_sent_at = some now } else s) { ack_sent_at = t }) e
]

module _ (from_iso : FromIso) (cab : Cabinet) (now : Time) (id : ℕ) (s : ErpSession)
    (paid : s.billing_state ≡ billed) where
  applied-IsHeld :
      (raw : Json) (db db' : Db) (a : Applied)
      → IsHeld id s db
      → apply from_iso db cab raw true now ≡ ok (a, db')
      → IsHeld id s db'
  applied-IsHeld raw db db' a h e = record {
    keyed = apply-IsKeyed from_iso db cab raw true now a db' h.keyed e;
    row = h.row;
    there =
        apply-billed from_iso db cab raw true now a db' id h.row h.keyed e h.there
          (ap (λ r. r.billing_state) h.same ∙ paid);
    same = h.same;
  }

  pulled-IsHeld :
      (raw : Json) (p : Pass)
      → IsHeld id s p.db
      → Has from_iso cab now (IsHeld id s) (pulled from_iso cab now raw p)
  pulled-IsHeld raw p h = by_result (apply from_iso p.db cab raw true now) refl
    where
      by_result :
          (r : Result (Applied × Db))
          → apply from_iso p.db cab raw true now ≡ r
          → Has from_iso cab now
              (IsHeld id s)
              (r >>= λ x. ok (record { db = x.1; run = count x.0 p.run }))
      by_result (raise e) eq = tt
      by_result (ok (a, db')) eq = applied-IsHeld raw p.db db' a h eq

  acked-IsHeld :
      (db : Db)
      → IsHeld id s db
      → IsHeld id s (record db { sessions = map (confirmed cab now) db.sessions })
  acked-IsHeld db h = record {
    keyed = map-IsKeyed (confirmed cab now) (confirmed-id cab now) db.sessions h.keyed;
    row = confirmed cab now h.row;
    there = row_at-map (confirmed cab now) (confirmed-id cab now) id db.sessions h.row h.there;
    same = confirmed-same cab now h.row s.ack_sent_at ∙ h.same;
  }

-- A run never changes a billed session: whatever the cabinet answers to any of its calls, in either
-- mode, and also where an exception ends it, the row of a billed session differs behind the run in
-- nothing but the time of its acknowledgement. The keys of the sessions are unique, and the fuel did
-- not run out.
pub reconcile-billed :
    (from_iso : FromIso) (fuel : ℕ) (cab : Cabinet) (api : Api) (has_channel_b nightly : Bool)
    (now : Time) (runs : List Run) (db : Db) (q : Pass) (id : ℕ) (s : ErpSession)
    → IsKeyed db.sessions
    → row_at id db.sessions ≡ some s
    → s.billing_state ≡ billed
    → reconcile from_iso fuel cab api has_channel_b nightly now runs db ≡ some q
    → (s' : ErpSession) × (row_at id q.db.sessions ≡ some s')
      × (record s' { ack_sent_at = s.ack_sent_at } ≡ s)
reconcile-billed from_iso fuel cab api has_channel_b nightly now runs db q id s keyed there paid e =
    let held =
      reconcile-keeps from_iso cab now (IsHeld id s) (pulled-IsHeld from_iso cab now id s paid)
        (acked-IsHeld from_iso cab now id s paid) fuel api has_channel_b nightly runs db q
        (record { keyed = keyed; row = s; there = there; same = refl }) e in
    (held.row, held.there, held.same)
