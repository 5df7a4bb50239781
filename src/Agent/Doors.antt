-- ===== src/Agent/Doors.antt =====
-- backend/app/agent/rules.py: an open cabinet door outside an announced service window, from the alarms
-- of the cabinet and from its last state.
use erp_iot.Base.{
  ℕ, String, Bool, true, false, ◌&&◌, ◌||◌, ◌<>◌, Option, none, some, List, [], ◌∷◌, ◌++◌, any, leb,
  ◌==◌, ◌-◌, ◌%◌, if◌then◌else◌, str_eq, select, not,
}
use erp_iot.Base.Json.{Json, obj, str, end, Dict, entries, get_json, or_null, truthy, is_text}
use erp_iot.Base.Text.{split_on}
use erp_iot.Base.Time.{Time, hours}
use erp_iot.Agent.Tables.{AlarmLog, Cabinet, PedestalCache, warning, Store}
use erp_iot.Agent.{World, Finding, ev, number, in_window, collect, as_dict}
use erp_iot.Agent.Commands.{cabinet_of}
use Prim.Native.Char.{code}
use Prim.Native.String.{String}

-- `_WINDOW_COVERS`
abbrev pub window_covers : Store → (cab : ℕ) → (at : Time) → Bool
window_covers db cab at =
    any (λ s. s.cabinet_id == cab && leb s.from_at at && leb at s.to_at) db.service_windows

-- `str(v).lower() == word`, where `word` is no text of a value that is not a text itself
abbrev pub says : World → (word : String) → Json → Bool
says w word (str s) = str_eq (w.lower s) word
says w word v = false

-- `data.get("door_state") or data.get("state") or ""`
abbrev pub door_state : Dict → Json
door_state fields =
    let state = get_json "door_state" fields in
    if truthy state then state else get_json "state" fields

abbrev pub dict_or_empty : Json → Dict
dict_or_empty (obj fs) = entries fs
dict_or_empty v = []

-- the cabinet that the alarms are joined to
abbrev pub alarm_cabinet : Store → Option ℕ → Option Cabinet
alarm_cabinet db none = none
alarm_cabinet db (some id) = cabinet_of db id

abbrev pub door_alarm_finding : World → AlarmLog → Cabinet → (detail : Json) → Finding
door_alarm_finding w r c detail = record {
  rule_id = "door_no_window";
  case_key = "alarm_log|" <> number r.id;
  severity = warning;
  title = c.display_id <> ": door open outside a service window";
  why =
      "The cabinet reported its door (marina_door) and no service window was announced for that time.";
  evidence =
      ev w "alarm_log" (r.id ∷ []) (("event", str "marina_door") ∷ ("data", detail) ∷ [])
        (some r.received_at)
      ∷ [];
  window_from = r.received_at;
  window_to = r.received_at;
  simulated = c.is_simulated;
}

-- the payload is a door's, and the door is not closed
abbrev pub is_open_door : World → Dict → Bool
is_open_door w payload =
    is_text "marina_door" (get_json "event" payload)
    && not (says w "closed" (door_state (dict_or_empty (get_json "data" payload))))

abbrev object_or_empty : Json → Json
object_or_empty (obj fs) = obj fs
object_or_empty v = obj end

-- the value `data`, where no dictionary counts as an empty one
abbrev pub data_of : Dict → Json
data_of payload = object_or_empty (get_json "data" payload)

abbrev pub door_alarm_at : World → Store → AlarmLog → Option Cabinet → Option Finding
door_alarm_at w db r none = none
door_alarm_at w db r (some c) =
    if is_open_door w (as_dict w r.alarm_data) && not (window_covers db c.id r.received_at)
    then some (door_alarm_finding w r c (data_of (as_dict w r.alarm_data)))
    else none

abbrev pub door_alarm_of : World → Store → (since now : Time) → AlarmLog → Option Finding
door_alarm_of w db since now r =
    if in_window since now r.received_at
    then door_alarm_at w db r (alarm_cabinet db r.cabinet_id)
    else none

-- `cache_key.partition("@")`, the part before and the part behind
abbrev before_at : String → String
before_at String.[] = String.[]
before_at (String.◌∷◌ c s) =
    let rest = before_at s in if code c == 64 then String.[] else String.◌∷◌ c rest

abbrev behind_at : String → String
behind_at String.[] = String.[]
behind_at (String.◌∷◌ c s) = let rest = behind_at s in if code c == 64 then s else rest

-- `parts[-2] if len(parts) >= 2 else ""`
abbrev pub last_but_one : List String → String
last_but_one [] = ""
last_but_one (s ∷ []) = ""
last_but_one (s ∷ t ∷ []) = s
last_but_one (s ∷ t ∷ u ∷ ss) = last_but_one (t ∷ u ∷ ss)

abbrev push_kept : String → String → String
push_kept c s = if str_eq c "/" && str_eq s "" then "" else c <> s

-- `s.rstrip("/")`
abbrev pub rstrip_slash : String → String
rstrip_slash String.[] = String.[]
rstrip_slash (String.◌∷◌ c s) = push_kept (String.◌∷◌ c String.[]) (rstrip_slash s)

abbrev pub matches : (marina : ℕ) → (ref server : String) → Cabinet → Bool
matches marina ref server c =
    c.marina_id == marina
    && (str_eq ref (number c.pedestal_pk) || str_eq ref c.display_id)
    && (str_eq server "" || str_eq (rstrip_slash c.base_url) (rstrip_slash server))

-- two cabinets are ambiguous
abbrev pub only {ℓ} : {A : Type ℓ} → List A → Option A
only (x ∷ []) = some x
only _ = none

unfoldable pub snapshot_cabinet : Store → (marina : ℕ) → (cache_key : String) → Option Cabinet
snapshot_cabinet db marina cache_key =
    let ref = last_but_one (split_on 47 (before_at cache_key)) in
    only (select (matches marina ref (behind_at cache_key)) db.cabinets)

abbrev pub snapshot_finding :
    World → PedestalCache → (cache_key : String) → (at : Time) → Cabinet → Finding
snapshot_finding w r cache_key at c = record {
  rule_id = "door_no_window";
  case_key = "status_ext|" <> number c.id <> "|" <> w.iso (at - at % hours 1);
  severity = warning;
  title = c.display_id <> ": door open outside a service window";
  why =
      "The cabinet's last state (status_ext) says door_state = open and no service window was announced for that time.";
  evidence =
      ev w "pedestal_cache" (r.id ∷ [])
        (("cache_key", str cache_key)
          ∷ ("door_state", get_json "door_state" (as_dict w r.last_seen_data))
          ∷ [])
        (some at)
      ∷ [];
  window_from = at;
  window_to = at;
  simulated = c.is_simulated;
}

abbrev pub snapshot_at :
    World
    → Store
    → PedestalCache
    → (cache_key : String) → (at : Time) → Option Cabinet
    → Option Finding
snapshot_at w db r cache_key at none = none
snapshot_at w db r cache_key at (some c) =
    if window_covers db c.id at then none else some (snapshot_finding w r cache_key at c)

-- `LIKE` of PostgreSQL for a pattern that ends in `%`, which is left out: `_` is any character
abbrev pub is_like : (pattern s : String) → Bool
is_like String.[] s = true
is_like (String.◌∷◌ p ps) String.[] = false
is_like (String.◌∷◌ p ps) (String.◌∷◌ c s) = (code p == 95 || code p == code c) && is_like ps s

abbrev pub snapshot_seen :
    World
    → Store
    → (since now : Time) → PedestalCache
    → Option String
    → Option Time
    → Option Finding
snapshot_seen w db since now r (some cache_key) (some at) =
    if is_like "pedestals.status_ext:" cache_key
      && in_window since now at
      && says w "open" (or_null (get_json "door_state" (as_dict w r.last_seen_data)))
    then snapshot_at w db r cache_key at (snapshot_cabinet db r.marina_id cache_key)
    else none
snapshot_seen w db since now r _ _ = none

abbrev pub snapshot_of : World → Store → (since now : Time) → PedestalCache → Option Finding
snapshot_of w db since now r = snapshot_seen w db since now r r.cache_key r.last_synced_at

unfoldable pub door_no_window : World → Store → (since now : Time) → List Finding
door_no_window w db since now =
    collect (door_alarm_of w db since now) db.alarm_log
    ++ collect (snapshot_of w db since now) db.pedestal_cache
