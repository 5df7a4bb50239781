-- ===== src/Sessions/Written.antt =====
-- `apply` writes at most one row, of the cabinet that asks and not billed.
use erp_iot.Base.{
  ℕ, String, ◌≡◌, ◌⊎◌, inl, inr, refl, Bool, true, false, Option, none, some, arith, Bool-cases,
  Option-cases, ◌==◌, first, first-passes, if◌then◌else◌,
}
use erp_iot.Base.Json.{Json, truthy}
use erp_iot.Base.Time.{Time}
use erp_iot.Cabinet.SessionPayload.{
  ParsedSession, Result, ok, raise, payload_error, type_error, value_error, key_error,
  attribute_error, Ensures, returned, raised, >>=-Ensures, parse_session,
}
use erp_iot.Sessions.{
  ErpSession, Cabinet, Outlet, Db, IsKeyed, row_at, updated_row, FromIso, parse_utc, find, or_else,
  of_cabinet, has_ref, has_cabinet_id, is_waiting, find_waiting, outlet_at, synced, Applied,
  updated, is_billed, apply_to, says_other_cabinet, apply_parsed, apply,
}
use erp_iot.Sessions.Rows.{keyed_row}

-- A row that `find` may return: of this cabinet, and in the table under its key.
record IsFound (db : Db) (cab : Cabinet) (s : ErpSession) : Type 0 where
  held : row_at s.id db.sessions ≡ some s
  in_cabinet : (s.cabinet_id == cab.id) ≡ true

of_cabinet-in :
    (id : ℕ) (p : ErpSession → Bool) (s : ErpSession)
    → of_cabinet id p s ≡ true
    → (s.cabinet_id == id) ≡ true
of_cabinet-in id p s h = elim (Bool-cases (s.cabinet_id == id)) [ inl e ↦ e | inr e ↦ ground arith ]

first-IsFound :
    (db : Db) (cab : Cabinet) (p : ErpSession → Bool) (s : ErpSession)
    → IsKeyed db.sessions
    → first (of_cabinet cab.id p) db.sessions ≡ some s
    → IsFound db cab s
first-IsFound db cab p s k h = record {
  held = keyed_row (of_cabinet cab.id p) db.sessions s k h;
  in_cabinet = of_cabinet-in cab.id p s (first-passes (of_cabinet cab.id p) db.sessions s h);
}

guarded-IsFound :
    (db : Db) (cab : Cabinet) (b : Bool) (p : ErpSession → Bool) (s : ErpSession)
    → IsKeyed db.sessions
    → (if b then first (of_cabinet cab.id p) db.sessions else none) ≡ some s
    → IsFound db cab s
guarded-IsFound db cab true p s k h = first-IsFound db cab p s k h
guarded-IsFound db cab false p s k h = cc

find_waiting-IsFound :
    (db : Db) (cab : Cabinet) (ref : Json) (name : Option String) (s : ErpSession)
    → IsKeyed db.sessions
    → find_waiting db cab.id ref name ≡ some s
    → IsFound db cab s
find_waiting-IsFound db cab ref none s k h = cc
find_waiting-IsFound db cab ref (some name) s k h =
    guarded-IsFound db cab (truthy ref) (is_waiting db ref name) s k h

or_else-cases :
    (a b : Option ErpSession) (s : ErpSession) → or_else a b ≡ some s → (a ≡ some s) ⊎ (b ≡ some s)
or_else-cases none b s h = inr h
or_else-cases (some x) b s h = inl h

find-IsFound :
    (db : Db) (cab : Cabinet) (ps : ParsedSession) (s : ErpSession)
    → IsKeyed db.sessions
    → find db cab ps ≡ some s
    → IsFound db cab s
unfolding find
find-IsFound db cab ps s k h = elim (or_else-cases _ _ s h) [
  | inl e ↦ guarded-IsFound db cab (truthy ps.erp_ref) (has_ref ps.erp_ref) s k e
  | inr e ↦ elim (or_else-cases _ _ s e) [
    | inl f ↦ first-IsFound db cab (has_cabinet_id ps.cabinet_session_id) s k f
    | inr f ↦ find_waiting-IsFound db cab ps.customer_id ps.outlet_name s k f
  ]
]

-- What one call of `apply` writes: at most one row, of this cabinet and not billed.
pub record IsWritten (db : Db) (cab : Cabinet) (pull : Bool) (now : Time) (db' : Db) : Type 0 where
  pub row : ErpSession
  pub parsed : ParsedSession
  pub outlet : Outlet
  pub activated : Option Time
  pub held : row_at row.id db.sessions ≡ some row
  pub in_cabinet : (row.cabinet_id == cab.id) ≡ true
  pub not_billed : is_billed row.billing_state ≡ false
  pub result : db' ≡ record db {
    sessions = updated_row (synced parsed outlet activated pull now row) db.sessions;
  }

-- The rows are as they were, or one was written and the answer is `updated`.
abbrev pub IsLogged : Db → Cabinet → Bool → Time → Applied × Db → Type 0
IsLogged db cab pull now (updated, db') = IsWritten db cab pull now db'
IsLogged db cab pull now (_, db') = db' ≡ db

synced-IsLogged :
    (f : FromIso) (db : Db) (cab : Cabinet) (ps : ParsedSession) (pull : Bool) (now : Time)
    (s : ErpSession)
    → IsFound db cab s
    → is_billed s.billing_state ≡ false
    → Ensures (IsLogged db cab pull now) (apply_to f db ps pull now s)
synced-IsLogged f db cab ps pull now s k b = elim (Option-cases (outlet_at db s.outlet_id)) [
  | inl e ↦ rw (b, e) raised
  | inr (o, e) ↦
      rw (b, e)
        (>>=-Ensures (parse_utc f ps.activated_at) _ (λ activated _. returned (record {
          row = s;
          parsed = ps;
          outlet = o;
          activated = activated;
          held = k.held;
          in_cabinet = k.in_cabinet;
          not_billed = b;
          result = refl;
        })))
]

apply_to-IsLogged :
    (f : FromIso) (db : Db) (cab : Cabinet) (ps : ParsedSession) (pull : Bool) (now : Time)
    (s : ErpSession)
    → IsFound db cab s
    → Ensures (IsLogged db cab pull now) (apply_to f db ps pull now s)
apply_to-IsLogged f db cab ps pull now s k = elim (Bool-cases (is_billed s.billing_state)) [
  | inl b ↦ rw b (returned refl)
  | inr b ↦ synced-IsLogged f db cab ps pull now s k b
]

apply_parsed-IsLogged :
    (f : FromIso) (db : Db) (cab : Cabinet) (ps : ParsedSession) (pull : Bool) (now : Time)
    → IsKeyed db.sessions
    → Ensures (IsLogged db cab pull now) (apply_parsed f db cab ps pull now)
unfolding apply_parsed
apply_parsed-IsLogged f db cab ps pull now k =
    elim (Bool-cases (says_other_cabinet cab ps.cabinet_display_id)) [
      | inl b ↦ rw (b, apply_parsed) (returned refl)
      | inr b ↦ elim (Option-cases (find db cab ps)) [
        | inl e ↦ rw (b, apply_parsed, e) (returned refl)
        | inr (s, e) ↦
            rw (b, apply_parsed, e)
              (apply_to-IsLogged f db cab ps pull now s (find-IsFound db cab ps s k e))
      ]
    ]

pub apply-IsLogged :
    (f : FromIso) (db : Db) (cab : Cabinet) (raw : Json) (pull : Bool) (now : Time)
    → IsKeyed db.sessions
    → Ensures (IsLogged db cab pull now) (apply f db cab raw pull now)
unfolding apply
apply-IsLogged f db cab raw pull now k = by_parse (parse_session raw) refl
  where
    by_parse :
        (r : Result ParsedSession)
        → parse_session raw ≡ r
        → Ensures (IsLogged db cab pull now) (apply f db cab raw pull now)
    by_parse (ok ps) e = rw (e, apply) (apply_parsed-IsLogged f db cab ps pull now k)
    by_parse (raise (payload_error p)) e = rw (e, apply) (returned refl)
    by_parse (raise type_error) e = rw (e, apply) raised
    by_parse (raise value_error) e = rw (e, apply) raised
    by_parse (raise key_error) e = rw (e, apply) raised
    by_parse (raise attribute_error) e = rw (e, apply) raised
