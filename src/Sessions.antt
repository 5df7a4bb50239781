-- ===== src/Sessions.antt =====
-- backend/app/services/session_sync.py: one session payload of a cabinet onto the ERP's row, for
-- the pull and for the webhook. The standard library's ISO parser is the argument `from_iso`, and a
-- raised exception leaves the rows as they were, since both callers roll back.
use mathlib.Core.Option
use erp_iot.Base.{
  ℕ, ◌*◌, String, Bool, true, false, not, ◌&&◌, ◌||◌, Option, none, some, List, [], ◌∷◌, first, any,
  is_some, ◌==◌, if◌then◌else◌, str_eq,
}
use erp_iot.Base.Int.{ℤ, pos, negsuc, ◌+ℤ◌, pos_part, neg_part, sub_ℕ, quantized, eqb_ℤ}
use erp_iot.Base.Json.{Json, null, str, is_null, is_text, truthy}
use erp_iot.Base.Text.{replace_char}
use erp_iot.Base.Time.{Time, shifted, minutes}
use erp_iot.Cabinet.SessionPayload.{
  Medium, electricity, water, Finding, recompute_mismatch, recompute_impossible, ParsedSession,
  Result, ok, raise, ◌>>=◌, payload_error, type_error, attribute_error, value_error,
  is_known_source, parse_session,
}
pub mod Table
mod Rows
mod Written
mod Steps
pub mod Keyed
pub mod Kept
pub mod Samples
mod Tests
pub use Table.{
  SessionStatus, reserved, active, ended, BillingState, pending, billed, manual_review,
  not_billable, ErpSession, Cabinet, Outlet, Customer, Db, IsKeyed,
}
unfoldable pub use Table.{row_at, updated_row}

-- `datetime.fromisoformat`: a naive time, or one with an offset in minutes east of UTC
pub record IsoTime : Type 0 where
  pub local : Time
  pub offset : Option ℤ

abbrev pub FromIso : Type 0
FromIso = String → Option IsoTime

abbrev pub minutes_west : ℤ → ℤ
minutes_west z = sub_ℕ (minutes (neg_part z)) (minutes (pos_part z))

-- `to_naive_utc`, behind its test for a naive time
abbrev pub naive_utc : IsoTime → Time
naive_utc t = elim t.offset [ none ↦ t.local | some z ↦ shifted t.local (minutes_west z) ]

-- `parse_utc`
unfoldable pub parse_utc : FromIso → Json → Result (Option Time)
parse_utc from_iso null = ok none
parse_utc from_iso (str s) =
    if str_eq s "" then ok none else elim (from_iso (replace_char b'Z' "+00:00" s)) [
      | none ↦ raise value_error
      | some t ↦ ok (some (naive_utc t))
    ]
parse_utc from_iso v = raise attribute_error

-- `find`: the reference, then the cabinet's id, then customer and outlet on a waiting row
abbrev pub has_ref : Json → ErpSession → Bool
has_ref ref s = is_text s.erp_ref ref

abbrev pub has_cabinet_id : ℤ → ErpSession → Bool
has_cabinet_id n s = elim s.cabinet_session_id [ none ↦ false | some m ↦ eqb_ℤ m n ]

abbrev pub is_ref_of : Json → Option Customer → Bool
is_ref_of ref none = false
is_ref_of ref (some c) = elim c.external_ref [ none ↦ false | some r ↦ is_text r ref ]

abbrev pub has_customer : Db → Json → Option ℕ → Bool
has_customer db ref none = false
has_customer db ref (some id) = is_ref_of ref (first (λ c. c.id == id) db.customers)

abbrev pub is_named : String → Option Outlet → Bool
is_named name none = false
is_named name (some o) = str_eq o.outlet_name name

-- `db.get(Outlet, id)`
abbrev pub outlet_at : Db → ℕ → Option Outlet
outlet_at db id = first (λ o. o.id == id) db.outlets

abbrev pub is_open : SessionStatus → Bool
is_open ended = false
is_open _ = true

abbrev pub is_waiting : Db → Json → String → ErpSession → Bool
is_waiting db ref name s =
    has_customer db ref s.customer_id
    && is_named name (outlet_at db s.outlet_id)
    && not (is_some s.cabinet_session_id)
    && is_open s.status

-- the test of a row of this cabinet
abbrev pub of_cabinet : ℕ → (ErpSession → Bool) → ErpSession → Bool
of_cabinet id p s = s.cabinet_id == id && p s

abbrev pub or_else : Option ErpSession → Option ErpSession → Option ErpSession
or_else (some s) t = some s
or_else none t = t

abbrev pub find_by_ref : Db → ℕ → Json → Option ErpSession
find_by_ref db id ref = if truthy ref then first (of_cabinet id (has_ref ref)) db.sessions else none

abbrev pub find_waiting : Db → ℕ → Json → Option String → Option ErpSession
find_waiting db id ref none = none
find_waiting db id ref (some name) =
    if truthy ref then first (of_cabinet id (is_waiting db ref name)) db.sessions else none

unfoldable pub find : Db → Cabinet → ParsedSession → Option ErpSession
find db cab ps = or_else (find_by_ref db cab.id ps.erp_ref) (
    or_else (first (of_cabinet cab.id (has_cabinet_id ps.cabinet_session_id)) db.sessions)
      (find_waiting db cab.id ps.customer_id ps.outlet_name))

-- `RECOMPUTE_FINDINGS`
abbrev pub is_recompute : Finding → Bool
is_recompute (recompute_mismatch _ _ _) = true
is_recompute (recompute_impossible _) = true
is_recompute _ = false

abbrev pub is_other_medium : Medium → Medium → Bool
is_other_medium electricity electricity = false
is_other_medium water water = false
is_other_medium _ _ = true

abbrev pub says_other_outlet : Option String → Outlet → Bool
says_other_outlet none o = false
says_other_outlet (some name) o = not (str_eq o.outlet_name name)

abbrev pub source_text : Json → Option String
source_text v = if is_known_source v then (elim v [ str s ↦ some s | _ ↦ none ]) else none

abbrev pub needs_review : ParsedSession → ErpSession → Outlet → Bool
needs_review ps s outlet =
    ps.manual_review
    || says_other_outlet ps.outlet_name outlet
    || is_other_medium ps.session_type s.session_type
    || not (is_known_source ps.consumption_source) && not (is_null ps.consumption_source)

-- `activated_at + timedelta(minutes=duration)`, from ten-thousandths of a minute
abbrev pub end_time : Time → ℤ → Time
end_time at (pos n) = shifted at (pos (n * 6000))
end_time at d = shifted at (sub_ℕ 0 (neg_part d * 6000))

abbrev pub ended_time : SessionStatus → Option Time → Option ℤ → Option Time → Option Time
ended_time ended (some at) (some d) before = some (end_time at d)
ended_time _ _ _ before = before

-- `_dec`
abbrev pub dec : ℕ → Option ℤ → Option ℤ
dec unit v = Option.map (quantized unit) v

-- the figure and the registers, into the columns of their medium
abbrev pub with_figures : ParsedSession → ErpSession → ErpSession
with_figures ps s = elim ps.session_type [
  | electricity ↦ record s {
    energy_kwh = dec 1 ps.consumption;
    meter_e_start = dec 1 ps.meter_start;
    meter_e_end = dec 1 ps.meter_end;
  }
  | water ↦ record s {
    water_liters = dec 10 ps.consumption;
    meter_w_start = dec 10 ps.meter_start;
    meter_w_end = dec 10 ps.meter_end;
  }
]

abbrev pub status_of : Json → SessionStatus
status_of v = if is_text "ended" v then ended else active

abbrev pub recompute_of : ParsedSession → Option Bool
recompute_of ps = elim ps.consumption [
  | none ↦ none
  | some _ ↦ some (not (any is_recompute ps.findings))
]

abbrev pub is_ended : SessionStatus → Bool
is_ended ended = true
is_ended _ = false

-- what `apply` writes into the row that it found
unfoldable pub synced :
    ParsedSession → Outlet → Option Time → (final_by_pull : Bool) → Time → ErpSession → ErpSession
synced ps outlet activated final_by_pull now s =
    let status = status_of ps.status in
    record (with_figures ps s) {
      cabinet_session_id = some ps.cabinet_session_id;
      status = status;
      activated_at = activated;
      duration_min = dec 100 ps.duration_minutes;
      ended_at = ended_time status activated ps.duration_minutes s.ended_at;
      consumption_source = source_text ps.consumption_source;
      recompute_ok = recompute_of ps;
      billing_state = if needs_review ps s outlet then manual_review else s.billing_state;
      reconciled_at = if final_by_pull && is_ended status then some now else s.reconciled_at;
    }

-- the words that `apply` returns
pub data Applied : Type 0 where
  updated unknown already_billed invalid : Applied

abbrev pub is_billed : BillingState → Bool
is_billed billed = true
is_billed _ = false

abbrev pub apply_to :
    FromIso
    → Db
    → ParsedSession
    → (final_by_pull : Bool) → Time
    → ErpSession
    → Result (Applied × Db)
apply_to from_iso db ps final_by_pull now s =
    if is_billed s.billing_state then ok (already_billed, db) else elim (outlet_at db s.outlet_id) [
      | none ↦ raise attribute_error
      | some outlet ↦ parse_utc from_iso ps.activated_at >>= λ activated.
          let s' = synced ps outlet activated final_by_pull now s in
          ok (updated, record db { sessions = updated_row s' db.sessions })
    ]

-- a payload of another cabinet on the same server
abbrev pub says_other_cabinet : Cabinet → Json → Bool
says_other_cabinet cab v = truthy v && not (is_text cab.display_id v)

unfoldable pub apply_parsed :
    FromIso → Db → Cabinet → ParsedSession → (final_by_pull : Bool) → Time → Result (Applied × Db)
apply_parsed from_iso db cab ps final_by_pull now =
    if says_other_cabinet cab ps.cabinet_display_id
    then ok (unknown, db)
    else elim (find db cab ps) [
      | none ↦ ok (unknown, db)
      | some s ↦ apply_to from_iso db ps final_by_pull now s
    ]

-- `apply`
unfoldable pub apply :
    FromIso → Db → Cabinet → Json → (final_by_pull : Bool) → Time → Result (Applied × Db)
apply from_iso db cab raw final_by_pull now = elim (parse_session raw) [
  | ok ps ↦ apply_parsed from_iso db cab ps final_by_pull now
  | raise (payload_error p) ↦ ok (invalid, db)
  | raise e ↦ raise e
]
