-- ===== src/Sessions/Samples.antt =====
-- Sessions, a cabinet and a payload at which the tests run.
use erp_iot.Base.{true, none, some, List, [], ◌∷◌, ◌+◌}
use erp_iot.Base.Int.{pos}
use erp_iot.Base.Json.{Json, null, int, str, obj, field, end, float}
use erp_iot.Base.Time.{hours, minutes}
use erp_iot.Cabinet.SessionPayload.{electricity}
use erp_iot.Sessions.{active, ended, billed, manual_review, ErpSession, Cabinet, Db, FromIso}

-- every text is 10:00 with two hours east of UTC
abbrev pub parser : FromIso
parser s = some (record { local = hours 100; offset = some (pos 120) })

-- session 41 on Q2, ended behind 30 minutes with 1.25 kWh
abbrev pub payload_of : Json → Json
payload_of session_id = obj (
    field "session_id" session_id (
      field "cabinet_id" (str "K1") (
        field "socket_id" (str "Q2") (
          field "session_type" (str "electricity") (
            field "customer_id" (str "C-7") (
              field "status" (str "ended") (
                field "activated_at" (str "x") (
                  field "duration_minutes" (int (pos 30)) (
                    field "energy_kwh" (float (pos 12500)) (
                      field "water_liters" null (
                        field "meter_energy_start_kwh" (float (pos 1000000)) (
                          field "meter_energy_end_kwh" (float (pos 1012505)) (
                            field "meter_water_start_l" null (
                              field "meter_water_end_l" null (
                                field "consumption_source" (str "register")
                                  (field "power_kw_current" null end))))))))))))))))

abbrev pub waiting : ErpSession
waiting = record {
  id = 5;
  erp_ref = "r-5";
  cabinet_id = 1;
  cabinet_session_id = none;
  outlet_id = 12;
  customer_id = some 7;
  session_type = electricity;
  status = active;
  activated_at = none;
  ended_at = none;
  duration_min = none;
  energy_kwh = none;
  water_liters = none;
  meter_e_start = none;
  meter_e_end = none;
  meter_w_start = none;
  meter_w_end = none;
  consumption_source = none;
  recompute_ok = none;
  billing_state = manual_review;
  created_at = hours 90;
  reconciled_at = none;
  ack_sent_at = none;
}

-- the billed session 41, and a session of another cabinet
abbrev pub paid : ErpSession
paid = record waiting { id = 4; cabinet_session_id = some (pos 41); billing_state = billed }

abbrev pub foreign : ErpSession
foreign = record waiting { id = 3; cabinet_id = 2; cabinet_session_id = some (pos 41) }

abbrev pub k1 : Cabinet
k1 = record { id = 1; display_id = "K1" }

abbrev pub db_of : List ErpSession → Db
db_of rows = record {
  sessions = rows;
  outlets = record { id = 12; outlet_name = "Q2" } ∷ [];
  customers = record { id = 7; external_ref = some "C-7" } ∷ [];
}

abbrev pub finished : ErpSession
finished = record waiting {
  cabinet_session_id = some (pos 41);
  status = ended;
  activated_at = some (hours 98);
  ended_at = some (hours 98 + minutes 30);
  duration_min = some (pos 3000);
  energy_kwh = some (pos 12500);
  meter_e_start = some (pos 1000000);
  meter_e_end = some (pos 1012505);
  consumption_source = some "register";
  recompute_ok = some true;
}

abbrev pub payload : Json
payload = payload_of (int (pos 41))
