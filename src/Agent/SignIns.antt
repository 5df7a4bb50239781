-- ===== src/Agent/SignIns.antt =====
-- backend/app/agent/rules.py: touched decoys, and failed sign-ins over several accounts.
use erp_iot.Base.{
  ℕ, String, Bool, true, false, ◌&&◌, ◌<>◌, Option, none, some, List, [], ◌∷◌, ◌++◌, map, length,
  ltb, ◌==◌, ◌*◌, ◌/◌, ◌+◌, if◌then◌else◌, str_eq, is_some, select,
}
use erp_iot.Base.Json.{str}
use erp_iot.Base.Text.{or_blank}
use erp_iot.Base.Time.{Time}
use erp_iot.Agent.Tables.{DecoyHit, AuthAudit, critical, warning, Store}
use erp_iot.Agent.{
  World, Finding, ev, quote_text, json_of, texts, number, printed, sorted_set, spray_accounts,
  spray_bucket, in_window, collect,
}

module _ {ℓ κ} {A : Type ℓ} {K : Type κ} (same : K → K → Bool) where
  -- `groups[key].append(row)`: a group stands where its first row stood
  abbrev pub appended : K → A → List (K × List A) → List (K × List A)
  appended k x [] = (k, x ∷ []) ∷ []
  appended k x ((j, xs) ∷ groups) =
      let rest = appended k x groups in
      if same j k then (j, xs ++ x ∷ []) ∷ groups else (j, xs) ∷ rest

  abbrev pub grouped_onto : (A → K) → List A → List (K × List A) → List (K × List A)
  grouped_onto key [] groups = groups
  grouped_onto key (x ∷ xs) groups = grouped_onto key xs (appended (key x) x groups)

abbrev pub same_text : Option String → Option String → Bool
same_text none none = true
same_text (some s) (some t) = str_eq s t
same_text _ _ = false

-- kind, decoy, address and day
pub record DecoyCase : Type 0 where
  pub kind : String
  pub decoy : String
  pub source_ip : Option String
  pub day : String

abbrev pub same_case : DecoyCase → DecoyCase → Bool
same_case a b =
    str_eq a.kind b.kind
    && str_eq a.decoy b.decoy
    && same_text a.source_ip b.source_ip
    && str_eq a.day b.day

abbrev pub decoy_case : World → DecoyHit → DecoyCase
decoy_case w h = record {
  kind = h.kind;
  decoy = h.decoy;
  source_ip = h.source_ip;
  day = w.iso_date h.observed_at;
}

abbrev pub decoys_in : (since now : Time) → Store → List DecoyHit
decoys_in since now db = select (λ h. in_window since now h.observed_at) db.decoy_hits

abbrev unknown_address : String
unknown_address = "an unknown address"

-- `quote(ip) or 'an unknown address'`
abbrev from_address : Option String → String
from_address none = unknown_address
from_address (some ip) = if str_eq ip "" then unknown_address else quote_text ip

abbrev pub last_time : Time → List DecoyHit → Time
last_time t [] = t
last_time t (h ∷ hits) = last_time h.observed_at hits

abbrev pub hit_id : DecoyHit → ℕ
hit_id h = h.id

-- a group holds its first row at least
abbrev pub decoy_finding : World → DecoyCase × List DecoyHit → Option Finding
decoy_finding w (k, []) = none
decoy_finding w (k, first ∷ hits) = some (record {
  rule_id = "decoy_touch";
  case_key = k.kind <> "|" <> k.decoy <> "|" <> printed k.source_ip <> "|" <> k.day;
  severity = critical;
  title = "Decoy touched: " <> quote_text k.decoy;
  why =
      number (length (first ∷ hits))
      <> " touch(es) of a '"
      <> k.kind
      <> "' decoy from "
      <> from_address k.source_ip
      <> "; nobody legitimate touches a decoy (layer 2).";
  evidence =
      ev w "decoy_hits" (map hit_id (first ∷ hits))
        (("kind", str k.kind)
          ∷ ("decoy", str k.decoy)
          ∷ ("method", json_of first.method)
          ∷ ("path", json_of first.path)
          ∷ ("source_ip", json_of k.source_ip)
          ∷ ("user_agent", json_of first.user_agent)
          ∷ [])
        (some first.observed_at)
      ∷ [];
  window_from = first.observed_at;
  window_to = last_time first.observed_at hits;
  simulated = false;
})

unfoldable pub decoy_touch : World → Store → (since now : Time) → List Finding
decoy_touch w db since now =
    collect (decoy_finding w) (grouped_onto same_case (decoy_case w) (decoys_in since now db) [])

-- the address and the start of the quarter of an hour
pub record SprayCase : Type 0 where
  pub source_ip : Option String
  pub start : Time

abbrev pub same_bucket : SprayCase → SprayCase → Bool
same_bucket a b = same_text a.source_ip b.source_ip && a.start == b.start

abbrev pub bucket_start : Time → Time
bucket_start at = at / spray_bucket * spray_bucket

abbrev pub spray_case : AuthAudit → SprayCase
spray_case r = record { source_ip = r.source_ip; start = bucket_start r.created_at }

abbrev is_failed_login : (since now : Time) → AuthAudit → Bool
is_failed_login since now r =
    str_eq r.event "login_failed" && in_window since now r.created_at && is_some r.source_ip

abbrev pub failed_logins : (since now : Time) → Store → List AuthAudit
failed_logins since now db = select (is_failed_login since now) db.auth_audit

abbrev pub emails_of : World → List AuthAudit → List String
emails_of w rows = sorted_set (map (λ r. w.lower (or_blank r.email_tried)) rows)

abbrev audit_id : AuthAudit → ℕ
audit_id r = r.id

abbrev detail_of : AuthAudit → String
detail_of r = or_blank r.detail

abbrev pub spray_of : World → SprayCase → (first : AuthAudit) → List AuthAudit → Finding
spray_of w k first rows =
    let emails = emails_of w (first ∷ rows) in
    record {
      rule_id = "login_spray";
      case_key = printed k.source_ip <> "|" <> w.iso k.start;
      severity = warning;
      title = "Failed sign-ins on " <> number (length emails) <> " accounts from one address";
      why =
          number (length (first ∷ rows))
          <> " failed sign-ins from "
          <> quote_text (printed k.source_ip)
          <> " on "
          <> number (length emails)
          <> " different e-mail addresses within 15 min.";
      evidence =
          ev w "auth_audit" (map audit_id (first ∷ rows))
            (("source_ip", json_of k.source_ip)
              ∷ ("emails_tried", texts emails)
              ∷ ("details", texts (sorted_set (map detail_of (first ∷ rows))))
              ∷ [])
            (some first.created_at)
          ∷ [];
      window_from = k.start;
      window_to = k.start + spray_bucket;
      simulated = false;
    }

abbrev pub spray_finding : World → SprayCase × List AuthAudit → Option Finding
spray_finding w (k, []) = none
spray_finding w (k, first ∷ rows) =
    if ltb (length (emails_of w (first ∷ rows))) spray_accounts
    then none
    else some (spray_of w k first rows)

unfoldable pub login_spray : World → Store → (since now : Time) → List Finding
login_spray w db since now =
    collect (spray_finding w) (grouped_onto same_bucket spray_case (failed_logins since now db) [])
