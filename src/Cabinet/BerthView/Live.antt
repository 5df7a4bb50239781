-- ===== src/Cabinet/BerthView/Live.antt =====
-- backend/app/cabinet/berth_view.py: what the health read says of a cabinet, and the signals made of it.
use erp_iot.Base.{
  String, ◌≡◌, refl, sym, ◌∙◌, Bool, true, false, Option, none, some, inl, inr, arith, ap, subst,
  ◌*◌, Option-cases,
}
use erp_iot.Base.Json.{Json, null, bool, int, float, str, arr, obj, end, get}
use erp_iot.Base.Time.{Time, older_than}
use erp_iot.Cabinet.BerthStatus.{
  BerthSignals, compute, is_false, Connection, online, offline, connection_at, connection_signal,
  default_heartbeat_interval,
}
use erp_iot.Cabinet.SessionPayload.{ok, ok-injective}
use erp_iot.Cabinet.BerthView.{Reads, pick, parse_iso, dict_data}
use erp_iot.Cabinet.BerthView.Build.{Tables, cab, smart_mode_of}
use erp_iot.Sessions.{FromIso}

-- the health read says that the cabinet runs on its own
abbrev pub says_standalone : Json → Bool
says_standalone (bool false) = true
says_standalone _ = false

-- The health read has an entry for the cabinet, with a heartbeat that is at most two intervals old, and
-- it does not say that the cabinet runs on its own.
pub record IsLive (text_of : Json → String) (from_iso : FromIso) (r : Reads) (pk : Json)
    : Type 0 where
  pub report : Json
  pub reported : get (text_of pk) (dict_data r.health) ≡ some report
  pub heartbeat : Json
  pub heard_in : pick "last_heartbeat" report ≡ ok heartbeat
  pub heard_at : Time
  pub heard : parse_iso from_iso heartbeat ≡ ok (some heard_at)
  pub recent : older_than r.now heard_at (2 * default_heartbeat_interval) ≡ false
  pub mode : Json
  pub mode_in : pick "smart_mode" report ≡ ok mode
  pub under_erp : says_standalone mode ≡ false

pub smart_mode_of-standalone :
    (v : Json) → is_false (smart_mode_of v) ≡ false → says_standalone v ≡ false
smart_mode_of-standalone null h = refl
smart_mode_of-standalone (bool true) h = refl
smart_mode_of-standalone (bool false) h = h
smart_mode_of-standalone (int n) h = refl
smart_mode_of-standalone (float x) h = refl
smart_mode_of-standalone (str t) h = refl
smart_mode_of-standalone (arr vs) h = refl
smart_mode_of-standalone (obj fs) h = refl

connection_at-online :
    (s : BerthSignals) (at : Time)
    → connection_at s at ≡ online
    → older_than s.now at (2 * s.heartbeat_interval) ≡ false
connection_at-online s at h = ground (arith, h)

pub connection_signal-online :
    (s : BerthSignals)
    → (compute s).connection ≡ online
    → (at : Time) × (s.last_heartbeat ≡ some at)
      × (older_than s.now at (2 * s.heartbeat_interval) ≡ false)
unfolding compute connection_signal
connection_signal-online s h = elim (Option-cases s.last_heartbeat) [
  | inl e ↦ absurd (offline_online (sym (ap answer e) ∙ h))
  | inr (at, e) ↦ (at, e, connection_at-online s at (sym (ap answer e) ∙ h))
]
  where
    answer : Option Time → Connection
    answer o = elim o [ none ↦ offline | some at ↦ connection_at s at ]

    offline_online : Path Connection offline online → ⊥
    offline_online h = cc

module _ (text_of : Json → String) (from_iso : FromIso) (r : Reads) (t : Tables) where
  -- an entry with a heartbeat is one of the health read
  found_entry :
      (o : Option Json) (heartbeat : Json) (at : Time)
      → pick "last_heartbeat" (elim o [ none ↦ obj end | some c ↦ c ]) ≡ ok heartbeat
      → parse_iso from_iso heartbeat ≡ ok (some at)
      → (c : Json) × (o ≡ some c) × (elim o [ none ↦ obj end | some c ↦ c ] ≡ c)
  found_entry (some c) heartbeat at e h = (c, refl, refl)
  found_entry none heartbeat at e h = absurd (silent heartbeat (ok-injective e) h)
    where
      silent : (v : Json) → null ≡ v → parse_iso from_iso v ≡ ok (some at) → ⊥
      silent v e h =
          none_some (ok-injective (subst (λ x. parse_iso from_iso x ≡ ok (some at)) (sym e) h))
        where
          none_some : Path (Option Time) none (some at) → ⊥
          none_some h = cc

  pub cab-entry :
      (pk heartbeat : Json) (at : Time)
      → pick "last_heartbeat" (cab text_of from_iso r t pk) ≡ ok heartbeat
      → parse_iso from_iso heartbeat ≡ ok (some at)
      → (c : Json) × (get (text_of pk) (dict_data r.health) ≡ some c)
        × (cab text_of from_iso r t pk ≡ c)
  cab-entry null heartbeat at e h = absurd (found_null (found_entry none heartbeat at e h))
    where
      found_null : (c : Json) × (Path (Option Json) none (some c)) × (obj end ≡ c) → ⊥
      found_null (c, e, h) = cc
  cab-entry (bool b) heartbeat at e h = found_entry _ heartbeat at e h
  cab-entry (int n) heartbeat at e h = found_entry _ heartbeat at e h
  cab-entry (float x) heartbeat at e h = found_entry _ heartbeat at e h
  cab-entry (str s) heartbeat at e h = found_entry _ heartbeat at e h
  cab-entry (arr vs) heartbeat at e h = found_entry _ heartbeat at e h
  cab-entry (obj fs) heartbeat at e h = found_entry _ heartbeat at e h
