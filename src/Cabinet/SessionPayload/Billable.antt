-- ===== src/Cabinet/SessionPayload/Billable.antt =====
-- What a billable session rests on, and where its outlet comes from.
use erp_iot.Base.{
  ◌&&◌, not, is_some, sym, ap, ◌∙◌, ◌≡◌, ◌↔◌, refl, String, Bool, true, false, ◌||◌, Option, none,
  some, arith, starts_with,
}
use erp_iot.Base.Int.{ℤ}
use erp_iot.Base.Json.{null, str, Json, obj, Dict, entries, is_text}
use erp_iot.Cabinet.SessionPayload.{
  ParsedSession, Medium, ok, Ensures, returned, raised, >>=-Ensures, Ensures-elim, billable,
  parse_outlet, ended_findings, recompute_findings, is_nonempty, parse_payload, without_prices,
  dropped_prices, with_dropped, parse_dict, parse_session, is_mismatch, is_outlet, letter,
}

-- What every parsed session says of itself.
record IsChecked (p : ParsedSession) : Type 0 where
  reviewed : p.manual_review ≡ (
      is_nonempty (ended_findings p.session_type p.status p.consumption p.consumption_source)
      || is_nonempty (recompute_findings p.session_type p.consumption p.meter_start p.meter_end))
  socket_id : Json
  attributed : parse_outlet p.session_type socket_id ≡ ok p.outlet_name

IsChecked-intro :
    (p : ParsedSession) (v : Json)
    → parse_outlet p.session_type v ≡ ok p.outlet_name
    → p.manual_review ≡ (
        is_nonempty (ended_findings p.session_type p.status p.consumption p.consumption_source)
        || is_nonempty (recompute_findings p.session_type p.consumption p.meter_start p.meter_end))
    → IsChecked p
IsChecked-intro p v e r = record { reviewed = r; socket_id = v; attributed = e }

parse_payload-IsChecked : (payload : Dict) → Ensures IsChecked (parse_payload payload)
unfolding parse_payload
parse_payload-IsChecked payload = search (>>=-Ensures, returned, IsChecked-intro) depth 60

parse_dict-IsChecked : (raw : Dict) → Ensures IsChecked (parse_dict raw)
unfolding parse_dict
parse_dict-IsChecked raw =
    >>=-Ensures (parse_payload (without_prices raw)) (λ p. ok (with_dropped (dropped_prices raw) p))
      (λ p e.
        let c = Ensures-elim (parse_payload-IsChecked (without_prices raw)) e in
        returned
          (record { reviewed = c.reviewed; socket_id = c.socket_id; attributed = c.attributed }))

parse_session-IsChecked : (raw : Json) → Ensures IsChecked (parse_session raw)
unfolding parse_session
parse_session-IsChecked (obj fs) = parse_dict-IsChecked (entries fs)
parse_session-IsChecked _ = raised

-- An ended session whose figure is known and agrees with both meter registers.
pub record IsMeasured (p : ParsedSession) : Type 0 where
  pub ended : is_text "ended" p.status ≡ true
  pub figure : ℤ
  pub known : p.consumption ≡ some figure
  pub start : ℤ
  pub started : p.meter_start ≡ some start
  pub end : ℤ
  pub stopped : p.meter_end ≡ some end
  pub agrees : is_mismatch figure start end ≡ false
  pub sourced : is_text "unknown" p.consumption_source ≡ false
  pub exact : is_text "integrated_legacy" p.consumption_source ≡ false

ended_findings-nonempty :
    (medium : Medium) (status : Json) (figure : Option ℤ) (source : Json)
    → is_text "ended" status ≡ true
    → is_nonempty (ended_findings medium status figure source) ≡ false
    → (is_text "unknown" source ≡ false) × (is_text "integrated_legacy" source ≡ false)
unfolding ended_findings
ended_findings-nonempty medium status figure source h k = ground arith

recompute_findings-nonempty :
    (medium : Medium) (figure : ℤ) (start end : Option ℤ)
    → is_nonempty (recompute_findings medium (some figure) start end) ≡ false
    → (a : ℤ) × (b : ℤ) × (start ≡ some a) × (end ≡ some b) × (is_mismatch figure a b ≡ false)
unfolding recompute_findings
recompute_findings-nonempty medium figure (some a) (some b) h = (a, b, refl, refl, ground arith)
recompute_findings-nonempty medium figure none (some b) h = cc
recompute_findings-nonempty medium figure (some a) none h = cc
recompute_findings-nonempty medium figure none none h = cc

ended_findings_empty :
    (medium : Medium) (status : Json) (figure : ℤ) (source : Json)
    → is_text "unknown" source ≡ false
    → is_text "integrated_legacy" source ≡ false
    → is_nonempty (ended_findings medium status (some figure) source) ≡ false
unfolding ended_findings
ended_findings_empty medium status figure source h k = ground arith

recompute_findings_empty :
    (medium : Medium) (figure a b : ℤ)
    → is_mismatch figure a b ≡ false
    → is_nonempty (recompute_findings medium (some figure) (some a) (some b)) ≡ false
unfolding recompute_findings
recompute_findings_empty medium figure a b h = ground arith

all_true : (a b c : Bool) → (a && not b && c) ≡ true → (a ≡ true) × (b ≡ false) × (c ≡ true)
all_true a b c h = ground arith

is_some-some : (o : Option ℤ) → is_some o ≡ true → (x : ℤ) × (o ≡ some x)
is_some-some none h = cc
is_some-some (some x) h = (x, refl)

billable_parts :
    (p : ParsedSession)
    → billable p ≡ true
    → (is_text "ended" p.status ≡ true)
      × (p.manual_review ≡ false)
      × ((figure : ℤ) × (p.consumption ≡ some figure))
unfolding billable
billable_parts p h =
    let (ended, unreviewed, known) =
      all_true (is_text "ended" p.status) p.manual_review (is_some p.consumption) h in
    (ended, unreviewed, is_some-some p.consumption known)

or_false : (a b : Bool) → (a || b) ≡ false → (a ≡ false) × (b ≡ false)
or_false a b h = ground arith

billable-IsMeasured : (p : ParsedSession) → IsChecked p → billable p ≡ true → IsMeasured p
billable-IsMeasured p c h =
    let (ended, unreviewed, (figure, known)) = billable_parts p h in
    let (quiet, same) = or_false _ _ (sym c.reviewed ∙ unreviewed) in
    let (sourced, exact) =
      ended_findings-nonempty p.session_type p.status p.consumption p.consumption_source ended
        quiet in
    let (a, b, started, stopped, agrees) =
      recompute_findings-nonempty p.session_type figure p.meter_start p.meter_end
        (rw known at same) in
    record {
      ended = ended;
      figure = figure;
      known = known;
      start = a;
      started = started;
      end = b;
      stopped = stopped;
      agrees = agrees;
      sourced = sourced;
      exact = exact;
    }

IsMeasured-billable : (p : ParsedSession) → IsChecked p → IsMeasured p → billable p ≡ true
unfolding billable
IsMeasured-billable p c m =
    let quiet =
      ended_findings_empty p.session_type p.status m.figure p.consumption_source m.sourced
        m.exact in
    let same = recompute_findings_empty p.session_type m.figure m.start m.end m.agrees in
    rw (m.ended, c.reviewed, m.known, m.started, m.stopped, quiet, same)

-- Of the sessions that `parse_session` returns exactly those are billable that have ended, whose
-- figure is known, whose two meter registers are both known and differ by the figure by at most
-- 0.001 in the arithmetic of binary floats (`is_mismatch`: each of the numbers, of at most four decimals,
-- and each difference is rounded to 53 bits), and whose source is neither "unknown" nor "integrated_legacy".
pub parse_session-billable_iff :
    (raw : Json) {p : ParsedSession} → parse_session raw ≡ ok p → (billable p ≡ true) ↔ IsMeasured p
parse_session-billable_iff raw {p} e =
    let c = Ensures-elim (parse_session-IsChecked raw) e in
    (billable-IsMeasured p c, IsMeasured-billable p c)

parse_outlet_lem :
    (medium : Medium) (v : Json) {s : String}
    → parse_outlet medium v ≡ ok (some s)
    → (is_outlet s ≡ true) × (starts_with s (letter medium) ≡ true)
unfolding parse_outlet
parse_outlet_lem medium null h = cc
parse_outlet_lem medium (str t) h = ground arith
parse_outlet_lem medium _ h = cc

-- The outlet of a session that `parse_session` returns is an outlet name of the session's own
-- medium: Q for electricity, V for water. Water is never attributed to a socket.
pub parse_session-outlet :
    (raw : Json) {p : ParsedSession} {s : String}
    → parse_session raw ≡ ok p
    → p.outlet_name ≡ some s
    → (is_outlet s ≡ true) × (starts_with s (letter p.session_type) ≡ true)
parse_session-outlet raw {p} {s} e named =
    let c = Ensures-elim (parse_session-IsChecked raw) e in
    parse_outlet_lem p.session_type c.socket_id (c.attributed ∙ ap ok named)
