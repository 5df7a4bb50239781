-- ===== src/Reconciler/Acknowledged.antt =====
-- backend/app/services/reconciler.py: what an acknowledgement leaves to the next one.
use erp_iot.Base.{
  ℕ, length, true, false, List, [], ◌∷◌, map, select, ◌≡◌, refl, Bool-cases, inl, inr, ◌∙◌, ap, sym,
  arith,
}
use erp_iot.Base.Int.{ℤ}
use erp_iot.Base.Time.{Time}
use erp_iot.Cabinet.Outcomes.{Outcome, is_ok}
use erp_iot.Cabinet.Client.{is_missing_route}
use erp_iot.Cabinet.SessionPayload.{ok-injective, ok, ◌>>=◌}
use erp_iot.Sessions.{ErpSession, Cabinet}
use erp_iot.Reconciler.{Api, Pass, known_ids, is_unconfirmed, confirmed, acked, ack_ids, ack_billed}

is_unconfirmed-confirmed :
    (cab : Cabinet)
    → (now : Time) → (s : ErpSession) → is_unconfirmed cab (confirmed cab now s) ≡ false
is_unconfirmed-confirmed cab now s = elim (Bool-cases (is_unconfirmed cab s)) [
  | inl t ↦ ground arith
  | inr f ↦ ground arith
]

select-confirmed :
    (cab : Cabinet)
    → (now : Time) → (rows : List ErpSession)
    → select (is_unconfirmed cab) (map (confirmed cab now) rows) ≡ []
select-confirmed cab now [] = refl
select-confirmed cab now (s ∷ rows) =
    rw (is_unconfirmed-confirmed cab now s, select-confirmed cab now rows)

select-acked :
    (cab : Cabinet)
    → (now : Time) → (n : ℕ) → (p : Pass) → (out : Outcome) → is_missing_route out ≡ false
    → is_ok out ≡ true
    → select (is_unconfirmed cab) (acked cab now n p out).db.sessions ≡ []
select-acked cab now n p out found success =
    rw (found, success, select-confirmed cab now p.db.sessions)

waiting_after :
    (cab : Cabinet)
    → (now : Time) → (api : Api) → (out : Outcome) → ((ns : List ℤ) → api.ack ns ≡ ok out)
    → is_missing_route out ≡ false
    → is_ok out ≡ true
    → (p q : Pass) → (ids : List ℤ) → known_ids (select (is_unconfirmed cab) p.db.sessions) ≡ ids
    → ack_ids cab now api p ids ≡ ok q
    → known_ids (select (is_unconfirmed cab) q.db.sessions) ≡ []
waiting_after cab now api out answered found success p q [] waiting run =
    let same : p ≡ q = ok-injective run in
    ap (λ r. known_ids (select (is_unconfirmed cab) r.db.sessions)) (sym same) ∙ waiting
waiting_after cab now api out answered found success p q (n ∷ ns) waiting run =
    let same : acked cab now (length (n ∷ ns)) p out ≡ q = ok-injective (
      ap (λ r. r >>= λ o. ok (acked cab now (length (n ∷ ns)) p o)) (sym (answered (n ∷ ns)))
      ∙ run) in
    ap (λ r. known_ids (select (is_unconfirmed cab) r.db.sessions)) (sym same)
    ∙ ap known_ids (select-acked cab now (length (n ∷ ns)) p out found success)

-- When the cabinet answers every acknowledgement with one outcome, a success that is not a missing route,
-- then what the first acknowledgement leaves has nothing for a second one: it returns the same rows and
-- the same run, at whatever time and whatever the cabinet would answer it, an exception included.
pub ack_billed-once :
    (cab : Cabinet)
    → (now later : Time) → (api other : Api) → (out : Outcome)
    → ((ns : List ℤ) → api.ack ns ≡ ok out)
    → is_missing_route out ≡ false
    → is_ok out ≡ true
    → (p q : Pass) → ack_billed cab now api p ≡ ok q
    → ack_billed cab later other q ≡ ok q
unfolding ack_billed
ack_billed-once cab now later api other out answered found success p q run =
    rw (waiting_after cab now api out answered found success p q _ refl run)
