-- ===== src/Sessions/Tests.antt =====
-- Payloads onto rows, and the theorems at them.
use erp_iot.Base.{◌≡◌, refl, true, false, some, [], ◌∷◌, arith}
use erp_iot.Base.Int.{quantized, ◌-ℤ◌}
use erp_iot.Base.Json.{null, str, int_of_text}
use erp_iot.Base.Time.{hours}
use erp_iot.Cabinet.SessionPayload.{
  ok, raise, parse_session, parse_dict, parse_payload, without_prices, dropped_prices, parse_medium,
  parse_outlet, is_outlet, num, source_findings, ended_findings, recompute_findings, is_mismatch,
  int_of, value_error, type_error,
}
use erp_iot.Sessions.{
  manual_review, ErpSession, IsKeyed, row_at, updated_row, parse_utc, find, synced, updated,
  already_billed, apply_parsed, apply,
}
use erp_iot.Sessions.Samples.{
  parser, payload_of, waiting, paid, foreign, k1, db_of, finished, payload,
}
use erp_iot.Sessions.Kept.{apply-billed, apply-other_cabinet, apply-review}

waiting_applied :
    apply parser (db_of (waiting ∷ foreign ∷ [])) k1 payload false (hours 110)
    ≡ ok (updated, db_of (finished ∷ foreign ∷ []))
unfolding apply apply_parsed find synced parse_utc updated_row quantized ◌-ℤ◌ parse_session
    parse_dict parse_payload without_prices dropped_prices parse_medium parse_outlet is_outlet num
    source_findings ended_findings recompute_findings is_mismatch int_of
waiting_applied = refl

paid_applied :
    apply parser (db_of (waiting ∷ paid ∷ [])) k1 payload true (hours 110)
    ≡ ok (already_billed, db_of (waiting ∷ paid ∷ []))
unfolding apply apply_parsed find parse_session parse_dict parse_payload ◌-ℤ◌ without_prices
    dropped_prices parse_medium parse_outlet is_outlet num source_findings ended_findings
    recompute_findings is_mismatch int_of
paid_applied = refl

-- a session id that is no number is no PayloadError: the exception leaves `apply`
apply_raises :
    (apply parser (db_of []) k1 (payload_of null) true (hours 110) ≡ raise type_error)
    × (apply parser (db_of []) k1 (payload_of (str "x")) true (hours 110) ≡ raise value_error)
unfolding apply apply_parsed find parse_session parse_dict parse_payload ◌-ℤ◌ without_prices
    dropped_prices parse_medium parse_outlet is_outlet num source_findings ended_findings
    recompute_findings is_mismatch int_of int_of_text
apply_raises = (refl, refl)

paid_held : row_at 4 (waiting ∷ paid ∷ []) ≡ some paid
unfolding row_at
paid_held = refl

foreign_held : row_at 3 (waiting ∷ foreign ∷ []) ≡ some foreign
unfolding row_at
foreign_held = refl

waiting_held : row_at 5 (waiting ∷ foreign ∷ []) ≡ some waiting
unfolding row_at
waiting_held = refl

paid-IsKeyed : IsKeyed (waiting ∷ paid ∷ [])
paid-IsKeyed = ((refl, tt), (tt, tt))

foreign-IsKeyed : IsKeyed (waiting ∷ foreign ∷ [])
foreign-IsKeyed = ((refl, tt), (tt, tt))

apply-billed_example : row_at 4 (waiting ∷ paid ∷ []) ≡ some paid
apply-billed_example =
    apply-billed parser (db_of (waiting ∷ paid ∷ [])) k1 payload true (hours 110) already_billed
      (db_of (waiting ∷ paid ∷ [])) 4 paid paid-IsKeyed paid_applied paid_held refl

apply-other_cabinet_example : row_at 3 (finished ∷ foreign ∷ []) ≡ some foreign
apply-other_cabinet_example =
    apply-other_cabinet parser (db_of (waiting ∷ foreign ∷ [])) k1 payload false (hours 110) updated
      (db_of (finished ∷ foreign ∷ [])) 3 foreign foreign-IsKeyed waiting_applied foreign_held
      (λ e. omega (arith, e))

apply-review_example :
    (s' : ErpSession) × (row_at 5 (finished ∷ foreign ∷ []) ≡ some s')
    × (s'.billing_state ≡ manual_review)
apply-review_example =
    apply-review parser (db_of (waiting ∷ foreign ∷ [])) k1 payload false (hours 110) updated
      (db_of (finished ∷ foreign ∷ [])) 5 waiting foreign-IsKeyed waiting_applied waiting_held refl
