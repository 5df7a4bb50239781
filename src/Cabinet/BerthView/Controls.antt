-- ===== src/Cabinet/BerthView/Controls.antt =====
-- backend/app/cabinet/berth_view.py: a control is there only where it can work.
use erp_iot.Base.{
  String, ◌≡◌, refl, sym, ◌∙◌, Bool, true, false, not, ◌&&◌, Option, none, some, List, [], ◌∷◌, All,
  arith, ap, ◌*◌,
}
use erp_iot.Base.Json.{Json}
use erp_iot.Base.Time.{older_than}
use erp_iot.Cabinet.BerthStatus.{
  BerthSignals, compute, winner, truth, is_false, Connection, online, stale, offline,
  default_heartbeat_interval,
}
use erp_iot.Cabinet.SessionPayload.{ok, Ensures, returned, Ensures-elim, >>=-Ensures}
use erp_iot.Cabinet.BerthView.{
  Reads, data_is_stale, list_data, outlets_for, hashed, pick, parse_iso,
}
use erp_iot.Cabinet.BerthView.Build.{
  Tables, Command, Switch, OutletRow, BerthRow, View, is_shut, is_online, can_control, outlet_rows,
  signals_of, berth_row, looked_up, sensor_alarm, status_of, cab, berth_rows, build, tables_of,
  smart_mode_of,
}
use erp_iot.Sessions.{FromIso}
use erp_iot.Cabinet.BerthView.Fitting.{IsGuarded, IsFit, outlet_rows-Ensures}
use erp_iot.Cabinet.BerthView.Live.{
  IsLive, smart_mode_of-standalone, connection_signal-online, cab-entry,
}

-- A status that is not shut is that of a cabinet that works under the ERP, on data that is not stale.
compute-open :
    (s : BerthSignals)
    → s.has_cabinet ≡ true
    → is_shut (compute s).status_code ≡ false
    → (s.data_is_stale ≡ false) × (is_false s.smart_mode ≡ false)
unfolding compute winner truth
compute-open s h h' = ground arith

-- A control of a berth is one of its switch's, where controls are enabled, no read is stale, the
-- cabinet is online and does not run on its own, and its health read says so.
abbrev pub IsSafeOutlet : (Json → String) → FromIso → Reads → BerthRow → OutletRow → Type 0
IsSafeOutlet text_of from_iso r b o =
    IsGuarded
      ((r.controls_enabled ≡ true)
        × (data_is_stale r ≡ false)
        × (b.status.connection ≡ online)
        × (is_false b.signals.smart_mode ≡ false)
        × IsLive text_of from_iso r b.pk)
      o.switch o.controls

abbrev pub IsSafe : (Json → String) → FromIso → Reads → BerthRow → Type 0
IsSafe text_of from_iso r b = All (IsSafeOutlet text_of from_iso r b) b.outlets

-- The signals are those of the entry `c` of the health read.
record IsOf (from_iso : FromIso) (r : Reads) (c : Json) (s : BerthSignals) : Type 0 where
  has_cabinet : s.has_cabinet ≡ true
  data_is_stale : s.data_is_stale ≡ data_is_stale r
  now : s.now ≡ r.now
  interval : s.heartbeat_interval ≡ default_heartbeat_interval
  heartbeat : Json
  heard_in : pick "last_heartbeat" c ≡ ok heartbeat
  heard : parse_iso from_iso heartbeat ≡ ok s.last_heartbeat
  mode : Json
  mode_in : pick "smart_mode" c ≡ ok mode
  smart_mode : s.smart_mode ≡ smart_mode_of mode

is_online-online : (c : Connection) → is_online c ≡ true → c ≡ online
is_online-online online h = refl
is_online-online stale h = ground (arith, h)
is_online-online offline h = ground (arith, h)

module _ (text_of : Json → String) (from_iso : FromIso) (r : Reads) (t : Tables) where
  module _ (pk : Json) (s : BerthSignals) where
    abbrev Facts : Type 0
    Facts =
        (r.controls_enabled ≡ true)
        × (data_is_stale r ≡ false)
        × ((compute s).connection ≡ online)
        × (is_false s.smart_mode ≡ false)
        × IsLive text_of from_iso r pk

    and_true : (a b : Bool) → (a && b) ≡ true → (a ≡ true) × (b ≡ true)
    and_true true b h = (refl, h)
    and_true false b h = ground (arith, h)

    of_negated : (a : Bool) → not a ≡ true → a ≡ false
    of_negated true h = ground (arith, h)
    of_negated false h = refl

    online-IsLive :
        IsOf from_iso r (cab text_of from_iso r t pk) s
        → (compute s).connection ≡ online
        → is_false s.smart_mode ≡ false
        → IsLive text_of from_iso r pk
    online-IsLive i on mode =
        let (at, e, recent) = connection_signal-online s on in
        let heard = i.heard ∙ ap (λ o. ok o) e in
        let (c, reported, same) =
          cab-entry text_of from_iso r t pk i.heartbeat at i.heard_in heard in
        record {
          report = c;
          reported = reported;
          heartbeat = i.heartbeat;
          heard_in = ap (pick "last_heartbeat") (sym same) ∙ i.heard_in;
          heard_at = at;
          heard = heard;
          recent =
              ap (λ n. older_than n at (2 * default_heartbeat_interval)) (sym i.now)
              ∙ ap (λ n. older_than s.now at (2 * n)) (sym i.interval)
              ∙ recent;
          mode = i.mode;
          mode_in = ap (pick "smart_mode") (sym same) ∙ i.mode_in;
          under_erp = smart_mode_of-standalone i.mode (ap is_false (sym i.smart_mode) ∙ mode);
        }

    can_control-Facts :
        IsOf from_iso r (cab text_of from_iso r t pk) s → can_control r (compute s) ≡ true → Facts
    can_control-Facts i h =
        let (enabled, h') = and_true r.controls_enabled _ h in
        let (unshut, is_on) = and_true _ (is_online (compute s).connection) h' in
        let (live, mode) = compute-open s i.has_cabinet (of_negated _ unshut) in
        let on = is_online-online _ is_on in
        (enabled, sym i.data_is_stale ∙ live, on, mode, online-IsLive i on mode)

    controls-IsGuarded :
        (switch : Switch) (controls : Option (List Command))
        → IsOf from_iso r (cab text_of from_iso r t pk) s
        → IsFit (can_control r (compute s)) switch controls
        → IsGuarded Facts switch controls
    controls-IsGuarded switch none of_r h = tt
    controls-IsGuarded switch (some cs) of_r (fit, can) = (fit, can_control-Facts of_r can)

    outlets-IsGuarded :
        (outlets : List OutletRow)
        → IsOf from_iso r (cab text_of from_iso r t pk) s
        → All (λ o. IsFit (can_control r (compute s)) o.switch o.controls) outlets
        → All (λ o. IsGuarded Facts o.switch o.controls) outlets
    outlets-IsGuarded [] of_r h = tt
    outlets-IsGuarded (o ∷ outlets) of_r (fit, h) =
        (controls-IsGuarded o.switch o.controls of_r fit, outlets-IsGuarded outlets of_r h)

  signals_of-Ensures :
      (b c pk bid : Json) → Ensures (IsOf from_iso r c) (signals_of text_of from_iso r t b c pk bid)
  unfolding signals_of
  signals_of-Ensures b c pk bid =
      let s_pk = status_of pk r.status in
      >>=-Ensures (pick "last_heartbeat" c) _ (λ heartbeat e1.
        >>=-Ensures (parse_iso from_iso heartbeat) _ (λ at e2.
          >>=-Ensures (pick "smart_mode" c) _ (λ mode e3.
            >>=-Ensures (sensor_alarm "moisture" s_pk) _ (λ leak e4.
              >>=-Ensures (sensor_alarm "temperature" s_pk) _ (λ hot e5.
                >>=-Ensures (pick "state_code" b) _ (λ code e6.
                  >>=-Ensures (pick "last_analyzed" b) _ (λ analyzed e7.
                    >>=-Ensures (parse_iso from_iso analyzed) _ (λ seen e8.
                      >>=-Ensures (looked_up r.now code seen) _ (λ known e9. returned (record {
                        has_cabinet = refl;
                        data_is_stale = refl;
                        now = refl;
                        interval = refl;
                        heartbeat = heartbeat;
                        heard_in = e1;
                        heard = e2;
                        mode = mode;
                        mode_in = e3;
                        smart_mode = refl;
                      }))))))))))

  berth_row-Ensures :
      (b : Json) → Ensures (IsSafe text_of from_iso r) (berth_row text_of from_iso r t b)
  unfolding berth_row
  berth_row-Ensures b = >>=-Ensures (pick "id" b) _ (λ id e1. >>=-Ensures (hashed id) _ (λ bid e2.
      >>=-Ensures (pick "pedestal_id" b) _ (λ pedestal e3. >>=-Ensures (hashed pedestal) _ (λ pk e4.
        >>=-Ensures (signals_of text_of from_iso r t b (cab text_of from_iso r t pk) pk bid) _
          (λ s e5.
            >>=-Ensures
              (outlet_rows r t pk bid (can_control r (compute s)) (outlets_for r.config bid)) _
              (λ outlets e6. >>=-Ensures (pick "name" b) _ (λ name e7.
                >>=-Ensures (pick "opta_client_id" (cab text_of from_iso r t pk)) _ (λ display e8.
                  returned (
                    outlets-IsGuarded pk s outlets
                      (Ensures-elim (signals_of-Ensures b (cab text_of from_iso r t pk) pk bid) e5)
                      (Ensures-elim
                        (outlet_rows-Ensures r t pk bid (can_control r (compute s))
                          (outlets_for r.config bid))
                        e6))))))))))

  berth_rows-Ensures :
      (bs : List Json)
      → Ensures (All (IsSafe text_of from_iso r)) (berth_rows text_of from_iso r t bs)
  unfolding berth_rows
  berth_rows-Ensures [] = returned tt
  berth_rows-Ensures (b ∷ bs) = >>=-Ensures (berth_row text_of from_iso r t b) _ (λ row e.
      >>=-Ensures (berth_rows text_of from_iso r t bs) _ (λ rest e'.
        returned (Ensures-elim (berth_row-Ensures b) e, Ensures-elim (berth_rows-Ensures bs) e')))

-- In every view that is built, an outlet has controls only where the marina's controls are enabled, no
-- read of the view is stale, the cabinet of its berth is online and does not run on its own, and the
-- health read has an entry of that cabinet, with a heartbeat at most two minutes old and a Smart
-- Mode that is not off; and then the controls are those that fit its switch.
pub build-IsSafe :
    (text_of : Json → String) (from_iso : FromIso) (r : Reads) (v : View)
    → build text_of from_iso r ≡ ok v
    → All (IsSafe text_of from_iso r) v.berths
unfolding build
build-IsSafe text_of from_iso r v e =
    Ensures-elim {P = λ u. All (IsSafe text_of from_iso r) u.berths}
      (>>=-Ensures (tables_of r) _ (λ t e1.
        >>=-Ensures (berth_rows text_of from_iso r t (list_data r.berths)) _ (λ rows e2.
          returned
            (Ensures-elim (berth_rows-Ensures text_of from_iso r t (list_data r.berths)) e2))))
      e
