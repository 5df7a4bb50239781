-- ===== src/Webhooks/Composed.antt =====
-- backend/app/routers/webhooks.py over backend/app/services/session_sync.py: what a webhook of a cabinet
-- does to the sessions.
use erp_iot.Base.{
  ℕ, String, ◌≡◌, refl, sym, ◌∙◌, subst, false, Option, some, List, some-injective, arith,
}
use erp_iot.Base.Json.{Json}
use erp_iot.Base.Int.{ℤ}
use erp_iot.Base.Time.{Time}
use erp_iot.Cabinet.SessionPayload.{Result, ok, raise}
use erp_iot.Sessions.{ErpSession, Cabinet, Db, Applied, FromIso, billed, IsKeyed, row_at, apply}
use erp_iot.Sessions.Kept.{apply-billed, apply_webhook-reconciled}
use erp_iot.Webhooks.Tables.{Sender, AlarmLog, Store}
use erp_iot.Webhooks.{Bytes, World, Request, Answer}
use erp_iot.Webhooks.Receive.{
  authenticated, record_decoy, answer_to, take_request, cabinet_of, logged_session, take_alarm,
  receive_cabinet_webhook,
}
use erp_iot.Webhooks.Cases.{answer_to_cases}
use erp_iot.Webhooks.Authentic.{capped_lem, record_decoy-SameLogs}

-- The sessions stay as they were, or one call of `apply` as a webhook gives them.
data IsWebhook (from_iso : FromIso) (now : Time) (erp : Db) : Db → Type 0 where
  same : IsWebhook from_iso now erp erp
  applied :
      {erp' : Db}
      → (cab : Cabinet) (raw : Json) (word : Applied)
      → apply from_iso erp cab raw false now ≡ ok (word, erp')
      → IsWebhook from_iso now erp erp'

unchanged :
    {from_iso : FromIso} {now : Time} {erp erp' : Db} → erp' ≡ erp → IsWebhook from_iso now erp erp'
unchanged {from_iso} {now} {erp} e = subst (IsWebhook from_iso now erp) (sym e) same

logged-IsWebhook :
    (w : World) (now : Time) (db : Store) (c : Sender) (event : String) (payload body : Json)
    (r : Result (Applied × Db))
    → apply w.from_iso db.erp (cabinet_of c) body false now ≡ r
    → IsWebhook w.from_iso now db.erp (logged_session c event payload now db r).1.erp
logged-IsWebhook w now db c event payload body (raise e) h = same
logged-IsWebhook w now db c event payload body (ok (word, erp)) h =
    applied (cabinet_of c) body word h

take_alarm-erp :
    (between : List AlarmLog) (now : Time) (db : Store) (c : Sender) (event : String)
    (payload : Json) (alarm : Option ℤ)
    → (take_alarm c between event payload alarm now db).1.erp ≡ db.erp
take_alarm-erp between now db c event payload alarm = ground arith

answer_to-IsWebhook :
    (w : World) (between : List AlarmLog) (now : Time) (db : Store) (body : Bytes)
    (r : Result (Option Sender))
    → IsWebhook w.from_iso now db.erp (answer_to w between now body db r).1.erp
answer_to-IsWebhook w between now db body r =
    answer_to_cases w between now db (λ a. IsWebhook w.from_iso now db.erp a.1.erp) (λ _. Unit {0})
      (λ r db' q e l. unchanged e)
      (λ c event payload body. logged-IsWebhook w now db c event payload body _ refl)
      (λ c event payload id g e. unchanged (take_alarm-erp between now db c event payload id)) body
      r (λ c e. tt)

receive_cabinet_webhook-IsWebhook :
    (w : World) (id : ℕ) (between : List AlarmLog) (req : Request) (now : Time) (db : Store)
    → IsWebhook w.from_iso now db.erp (receive_cabinet_webhook w id between req now db).1.erp
unfolding receive_cabinet_webhook
receive_cabinet_webhook-IsWebhook w id between req now db =
    capped_lem (λ a. IsWebhook w.from_iso now db.erp a.1.erp) w req db _ (λ e. same) same
      (subst (λ erp. IsWebhook w.from_iso now erp (behind_decoy).1.erp)
        (record_decoy-SameLogs w req.x_api_key now db).0
        (answer_to-IsWebhook w between now (record_decoy w req.x_api_key now db) req.body
          (authenticated w (record_decoy w req.x_api_key now db) id req req.body)))
  where
    behind_decoy : Answer
    behind_decoy = take_request w id between req now req.body (record_decoy w req.x_api_key now db)

IsWebhook-row :
    {from_iso : FromIso} {now : Time} {erp erp' : Db} (id : ℕ) (s : ErpSession)
    → IsWebhook from_iso now erp erp'
    → IsKeyed erp.sessions
    → row_at id erp.sessions ≡ some s
    → (s' : ErpSession) × (row_at id erp'.sessions ≡ some s')
      × (s'.reconciled_at ≡ s.reconciled_at)
      × (s.billing_state ≡ billed → s' ≡ s)
IsWebhook-row id s same keyed there = (s, there, refl, λ b. refl)
IsWebhook-row {from_iso} {now} {erp} id s (applied {erp'} cab raw word h) keyed there =
    let (s', there', time) =
      apply_webhook-reconciled from_iso erp cab raw now word erp' id s keyed h there in
    (
      s',
      there',
      time,
      λ b.
          some-injective (
            sym there'
            ∙ apply-billed from_iso erp cab raw false now word erp' id s keyed h there b),
    )

-- A webhook is for speed only: whoever sends it and whatever it holds, every session is still there
-- with the reconciliation time that it had, and a billed one is unchanged. The keys of the sessions
-- are unique.
pub receive_cabinet_webhook-sessions :
    (w : World) (cabinet : ℕ) (between : List AlarmLog) (req : Request) (now : Time) (db : Store)
    (id : ℕ) (s : ErpSession)
    → IsKeyed db.erp.sessions
    → row_at id db.erp.sessions ≡ some s
    → let db' = (receive_cabinet_webhook w cabinet between req now db).1 in
      (s' : ErpSession) × (row_at id db'.erp.sessions ≡ some s')
      × (s'.reconciled_at ≡ s.reconciled_at)
      × (s.billing_state ≡ billed → s' ≡ s)
receive_cabinet_webhook-sessions w cabinet between req now db id s keyed there =
    IsWebhook-row id s (receive_cabinet_webhook-IsWebhook w cabinet between req now db) keyed there
