-- ===== src/Reconciler/Tests.antt =====
-- One billed session, its acknowledgement and its pages, and the theorems at them.
use erp_iot.Base.{
  zero, suc, ◌∙◌, ◌≡◌, ◌-◌, ◌∷◌, ◌==◌, refl, sym, ap, subst, true, false, none, some, List, [], inl,
  arith, length, length-append, if◌then◌else◌,
}
use erp_iot.Base.Int.{◌-ℤ◌}
use erp_iot.Base.Json.{Json, Items, nil, cons, arr, obj, field, end}
use erp_iot.Base.Time.{Time, days, hours}
use erp_iot.Cabinet.Outcomes.{Outcome, json, ok}
use erp_iot.Cabinet.SessionPayload
use erp_iot.Cabinet.SessionPayload.{
  raise, type_error, parse_session, parse_dict, parse_payload, without_prices, dropped_prices,
  parse_medium, parse_outlet, is_outlet, num, source_findings, ended_findings, recompute_findings,
  is_mismatch, ok-injective, int_of,
}
use erp_iot.Sessions.{ErpSession, Db, IsKeyed, row_at, apply, apply_parsed, find}
use erp_iot.Sessions.Samples.{parser, payload, waiting, paid, k1, db_of}
use erp_iot.Reconciler.{
  Api, Pass, Run, range, first_lookback, count, window_start, last_good_window_to, refresh_active,
  ack_billed,
}
use erp_iot.Reconciler.Range.{
  sessions_of, with_window, new_run, page, pulled_all, going_on, pages, range_part, reconcile,
}
use erp_iot.Reconciler.Acknowledged.{ack_billed-once}
use erp_iot.Reconciler.Paged.{IsPage, IsPaged, pages_complete}
use erp_iot.Reconciler.Kept.{reconcile-billed}
use erp_iot.Reconciler.Returns.{HasEnd, reconcile-returns}

abbrev started : Run
started = record {
  mode = range;
  window_from = none;
  window_to = some (hours 100);
  finished_ok = false;
  sessions_seen = 0;
  sessions_updated = 0;
  sessions_unknown = 0;
  sessions_acked = 0;
  has_error = false;
}

abbrev before : Pass
before = record {
  db = record { sessions = paid ∷ []; outlets = []; customers = [] };
  run = started;
}

abbrev after : Pass
after = record {
  db = record {
    sessions = record paid { ack_sent_at = some (hours 100) } ∷ [];
    outlets = [];
    customers = [];
  };
  run = record started { sessions_acked = 1 };
}

abbrev accepted : Outcome
accepted = record {
  code = ok;
  endpoint_key = "nfc_ack";
  content = some (json (obj end));
  http_status = some 200;
  is_stale = false;
  synced_at = none;
  cabinet_detail = none;
}

abbrev cabinet : Api
cabinet = record {
  ended_between = λ a b n. SessionPayload.ok accepted;
  by_user_ref = λ r. SessionPayload.ok accepted;
  session = λ n. SessionPayload.ok accepted;
  ack = λ ns. SessionPayload.ok accepted;
}

abbrev broken : Api
broken = record {
  ended_between = λ a b n. raise type_error;
  by_user_ref = λ r. raise type_error;
  session = λ n. raise type_error;
  ack = λ ns. raise type_error;
}

acknowledged : ack_billed k1 (hours 100) cabinet before ≡ SessionPayload.ok after
unfolding ack_billed
acknowledged = refl

ack_billed-once_example : ack_billed k1 (hours 101) broken after ≡ SessionPayload.ok after
ack_billed-once_example =
    ack_billed-once k1 (hours 100) (hours 101) cabinet broken accepted (λ ns. refl) refl refl before
      after acknowledged

-- a good run that is 40 days old leaves ten days that no window holds
late_nightly : window_start true (days 50) (some (days 10)) ≡ days 20
unfolding window_start
late_nightly = refl

last_good :
    last_good_window_to (started ∷ record started { finished_ok = true; window_to = some 7 } ∷ [])
    ≡ some 7
unfolding last_good_window_to
last_good = refl

-- a cabinet that serves one session, of the billed row, in pages
abbrev page_of : Items → Outcome
page_of vs = record accepted { content = some (json (obj (field "sessions" (arr vs) end))) }

abbrev served : List Json
served = payload ∷ []

abbrev paging : Api
paging = record cabinet {
  ended_between = λ a b n. SessionPayload.ok (page_of (if n == 0 then cons payload nil else nil));
}

tail_of : List Json → List Json
tail_of [] = []
tail_of (v ∷ vs) = vs

served-IsPaged : (frm now : Time) → IsPaged page paging frm now served
unfolding tail_of
served-IsPaged frm now [] rest e = (
  page_of (cons payload nil),
  refl,
  subst (λ l. IsPage (page_of (cons payload nil)) page l served) (sym e)
      (record { has_route = refl; succeeds = refl; holds = refl; counts = inl refl }),
)
served-IsPaged frm now (x ∷ []) rest e = (
  page_of nil,
  refl,
  subst (λ l. IsPage (page_of nil) page l served) (sym (ap tail_of e))
      (record { has_route = refl; succeeds = refl; holds = refl; counts = inl refl }),
)
served-IsPaged frm now (x ∷ y ∷ before) rest e =
    absurd (omega (arith, ap length e, length-append before rest))

abbrev erp : Db
erp = db_of (waiting ∷ paid ∷ [])

abbrev window : Pass
window =
    with_window parser k1 (hours 110) (hours 110 - first_lookback)
      (record { db = erp; run = new_run })

abbrev pulled_once : Pass
pulled_once = record window { run = record window.run { sessions_seen = 1 } }

served_pulled : pulled_all parser k1 (hours 110) served window ≡ SessionPayload.ok pulled_once
unfolding pulled_all count apply apply_parsed find parse_session parse_dict parse_payload ◌-ℤ◌
    without_prices dropped_prices parse_medium parse_outlet is_outlet num source_findings
    ended_findings recompute_findings is_mismatch int_of
served_pulled = refl

pages_complete_example :
    pages parser k1 (hours 110) paging false (hours 110 - first_lookback) 2 window window 0
    ≡ going_on pulled_once
pages_complete_example =
    pages_complete parser k1 (hours 110) paging false (hours 110 - first_lookback) served 2 window
      window pulled_once (served-IsPaged (hours 110 - first_lookback) (hours 110)) (omega arith)
      served_pulled

paging-HasEnd : (frm now : Time) → HasEnd parser k1 now paging frm 1
paging-HasEnd frm now zero out raw raws asked held =
    let page = ap (λ o. sessions_of o) (ok-injective asked) ∙ held in
    omega (arith, ap length (ok-injective page))
paging-HasEnd frm now (suc n) out raw raws asked held =
    let page = ap (λ o. sessions_of o) (ok-injective asked) ∙ held in
    absurd (grind (arith, ap length (ok-injective page)))

reconcile-returns_example :
    (q : Pass) × (reconcile parser 2 k1 paging true false (hours 110) [] erp ≡ some q)
reconcile-returns_example =
    reconcile-returns parser 2 1 k1 paging true false (hours 110) [] erp
      (paging-HasEnd (window_start false (hours 110) (last_good_window_to [])) (hours 110))
      (omega arith)

erp-IsKeyed : IsKeyed erp.sessions
erp-IsKeyed = ((refl, tt), (tt, tt))

paid_held : row_at 4 erp.sessions ≡ some paid
unfolding row_at
paid_held = refl

abbrev final : Pass
final = record {
  db = db_of (waiting ∷ record paid { ack_sent_at = some (hours 110) } ∷ []);
  run = record pulled_once.run { sessions_seen = 2; sessions_acked = 1; finished_ok = true };
}

ran : reconcile parser 2 k1 paging true false (hours 110) [] erp ≡ some final
unfolding reconcile range_part pages window_start last_good_window_to refresh_active ack_billed
    pulled_all count apply apply_parsed find parse_session parse_dict parse_payload ◌-ℤ◌
    without_prices dropped_prices parse_medium parse_outlet is_outlet num source_findings
    ended_findings recompute_findings is_mismatch int_of
ran = refl

reconcile-billed_example :
    (s' : ErpSession) × (row_at 4 final.db.sessions ≡ some s')
    × (record s' { ack_sent_at = none } ≡ paid)
reconcile-billed_example =
    reconcile-billed parser 2 k1 paging true false (hours 110) [] erp final 4 paid erp-IsKeyed
      paid_held refl ran
