-- ===== src/Cabinet/SessionPayload/Tests.antt =====
-- Payloads of the cabinet, and the theorems at them.
use erp_iot.Base.{◌≡◌, ◌↔◌, refl, true, false, none, some, [], ◌∷◌}
use erp_iot.Base.Int.{pos, ◌-ℤ◌}
use erp_iot.Base.Json.{Json, null, int, float, str, obj, Fields, end, field}
use erp_iot.Cabinet.SessionPayload.{
  ParsedSession, electricity, price_field_dropped, figure_null, measurement_missing, ok, raise,
  is_mismatch, payload_error, outlet_mismatch, bad_outlet, billable, parse_session,
}
use erp_iot.Cabinet.SessionPayload.Billable.{IsMeasured, parse_session-billable_iff}

-- the payload with these values in four of its places
abbrev payload : (socket_id status energy source : Json) → Fields → Fields
payload socket_id status energy source rest = field "session_id" (int (pos 41)) (
    field "cabinet_id" (str "MAR_KRK_01") (
      field "socket_id" socket_id (
        field "session_type" (str "electricity") (
          field "customer_id" (str "C-7") (
            field "status" status (
              field "activated_at" (str "2026-10-12T10:00:00Z") (
                field "duration_minutes" (int (pos 30)) (
                  field "energy_kwh" energy (
                    field "water_liters" null (
                      field "meter_energy_start_kwh" (float (pos 1000000)) (
                        field "meter_energy_end_kwh" (float (pos 1012505)) (
                          field "meter_water_start_l" null (
                            field "meter_water_end_l" null (
                              field "consumption_source" source
                                (field "power_kw_current" null rest)))))))))))))))

-- 1.25 kWh by registers that differ by 1.2505
abbrev measured : Json
measured = obj (
    payload (str "Q2") (str "ended") (float (pos 12500)) (str "register")
      (field "cost" (int (pos 9)) end))

abbrev unmeasured : Json
unmeasured = obj (payload (str "Q2") (str "ended") null (str "unknown") end)

abbrev parsed : ParsedSession
parsed = record {
  cabinet_session_id = pos 41;
  cabinet_display_id = str "MAR_KRK_01";
  outlet_name = some "Q2";
  session_type = electricity;
  customer_id = str "C-7";
  status = str "ended";
  activated_at = str "2026-10-12T10:00:00Z";
  duration_minutes = some (pos 300000);
  consumption = some (pos 12500);
  meter_start = some (pos 1000000);
  meter_end = some (pos 1012505);
  consumption_source = str "register";
  power_kw_current = none;
  manual_review = false;
  findings = price_field_dropped 1 ∷ [];
  erp_ref = null;
}

parse_session-measured : parse_session measured ≡ ok parsed
unfolding parse_session ◌-ℤ◌ is_mismatch
parse_session-measured = refl

-- 0.999 by registers that stand at 10 and 11 is more than 0.001 off, and 1.001 is not: binary floats decide
tolerance_test :
    (is_mismatch (pos 9990) (pos 100000) (pos 110000) ≡ true)
    × (is_mismatch (pos 10010) (pos 100000) (pos 110000) ≡ false)
    × (is_mismatch (pos 12500) (pos 1000000) (pos 1012505) ≡ false)
unfolding is_mismatch ◌-ℤ◌
tolerance_test = (refl, refl, refl)

parse_session-unmeasured :
    parse_session unmeasured
    ≡ ok (record parsed {
      consumption = none;
      consumption_source = str "unknown";
      manual_review = true;
      findings = figure_null electricity ∷ measurement_missing electricity ∷ [];
    })
unfolding parse_session
parse_session-unmeasured = refl

-- A bare number is no outlet, and a water outlet is none of an electricity session.
parse_session_refusals :
    (parse_session (obj (payload (int (pos 1)) (str "ended") null null end))
      ≡ raise (payload_error bad_outlet))
    × (parse_session (obj (payload (str "V1") (str "ended") null null end))
        ≡ raise (payload_error outlet_mismatch))
unfolding parse_session
parse_session_refusals = (refl, refl)

parse_session-billable_iff_example : (billable parsed ≡ true) ↔ IsMeasured parsed
parse_session-billable_iff_example = parse_session-billable_iff measured parse_session-measured
