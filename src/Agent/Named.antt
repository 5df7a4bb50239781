-- ===== src/Agent/Named.antt =====
-- backend/app/agent/rules.py: what holds of every finding of a rule.
use erp_iot.Base.{
  String, ◌≡◌, refl, inl, inr, Bool, true, false, Option, none, some, List, [], ◌∷◌, ◌++◌, All,
  Bool-cases, ltb, length, if◌then◌else◌,
}
use erp_iot.Base.Time.{Time}
use erp_iot.Agent.Tables.{
  CommandAudit, AuthAudit, DecoyHit, Store, AlarmLog, PedestalCache, Cabinet,
}
use erp_iot.Agent.{World, Finding, collect, spray_accounts}
use erp_iot.Agent.SignIns.{
  decoy_touch, decoy_finding, login_spray, spray_finding, SprayCase, DecoyCase, same_case,
  decoy_case, decoys_in, same_bucket, spray_case, failed_logins, grouped_onto, emails_of,
}
use erp_iot.Agent.Commands.{
  socket_cmd_odd_hour, odd_hour_of, socket_cmd_new_ip, new_ip_of, account_new_endpoint,
  new_endpoints, EndpointCase, OutletCommand, endpoint_case, history, is_usual,
  outlet_cmds_in_window,
}
use erp_iot.Agent.Doors.{
  door_no_window, door_alarm_of, door_alarm_at, snapshot_at, snapshot_seen, snapshot_of,
}
use erp_iot.Agent.Pass.{
  Rule, rule_id, fn, decoys, sprays, odd_hours, new_addresses, new_calls, doors,
}

pub data OnSome {ℓ κ} {A : Type ℓ} (P : A → Type κ) : Option A → Type (ℓ ⊔ κ) where
  missing : OnSome P none
  found : (x : A) → P x → OnSome P (some x)

module _ {κ μ} {B : Type κ} (P : B → Type μ) where
  -- a test picks one of two
  OnSome-if :
      {o o' : Option B} (b : Bool) → OnSome P o → OnSome P o' → OnSome P (if b then o else o')
  OnSome-if true g h = g
  OnSome-if false g h = h

  onto-All :
      {o : Option B} (ys : List B)
      → OnSome P o
      → All P ys
      → All P (elim o [ none ↦ ys | some y ↦ y ∷ ys ])
  onto-All ys missing h = h
  onto-All ys (found y g) h = (g, h)

  pub collect-All {ℓ} :
      {A : Type ℓ} (f : A → Option B) (xs : List A)
      → ((x : A) → OnSome P (f x))
      → All P (collect f xs)
  collect-All f [] h = tt
  collect-All f (x ∷ xs) h = onto-All (collect f xs) (h x) (collect-All f xs h)

  pub append-All : (xs ys : List B) → All P xs → All P ys → All P (xs ++ ys)
  append-All [] ys g h = h
  append-All (x ∷ xs) ys (k, g) h = (k, append-All xs ys g h)

abbrev pub IsNamed : String → Finding → Type 0
IsNamed id f = f.rule_id ≡ id

abbrev IsDoor : Finding → Type 0
IsDoor f = IsNamed "door_no_window" f

module _ (w : World) (db : Store) where
  spray_finding-IsNamed :
      (g : SprayCase × List AuthAudit) → OnSome (IsNamed "login_spray") (spray_finding w g)
  spray_finding-IsNamed (k, []) = missing
  spray_finding-IsNamed (k, r ∷ rows) =
      elim (Bool-cases (ltb (length (emails_of w (r ∷ rows))) spray_accounts)) [
        | inl t ↦ rw t missing
        | inr f ↦ rw f (found _ refl)
      ]

  decoy_finding-IsNamed :
      (g : DecoyCase × List DecoyHit) → OnSome (IsNamed "decoy_touch") (decoy_finding w g)
  decoy_finding-IsNamed (k, []) = missing
  decoy_finding-IsNamed (k, h ∷ hits) = found _ refl

  new_endpoints-IsNamed :
      (seen : List EndpointCase) (rows : List (String × CommandAudit))
      → All (IsNamed "account_new_endpoint") (new_endpoints w db seen rows)
  new_endpoints-IsNamed seen [] = tt
  new_endpoints-IsNamed seen ((actor, r) ∷ rows) =
      let k = endpoint_case db actor r in
      elim (Bool-cases (is_usual seen k (history db actor r.created_at k.simulated))) [
        | inl t ↦ rw t (new_endpoints-IsNamed seen rows)
        | inr f ↦ rw f (refl, new_endpoints-IsNamed (k ∷ seen) rows)
      ]

  odd_hour_of-IsNamed :
      (c : OutletCommand) → OnSome (IsNamed "socket_cmd_odd_hour") (odd_hour_of w c)
  odd_hour_of-IsNamed c = OnSome-if (IsNamed "socket_cmd_odd_hour") _ missing (found _ refl)

  new_ip_of-IsNamed : (c : OutletCommand) → OnSome (IsNamed "socket_cmd_new_ip") (new_ip_of w db c)
  new_ip_of-IsNamed c =
      OnSome-if (IsNamed "socket_cmd_new_ip") _ missing
        (OnSome-if (IsNamed "socket_cmd_new_ip") _ missing (found _ refl))

  door_alarm_at-IsNamed :
      (r : AlarmLog) (c : Option Cabinet) → OnSome IsDoor (door_alarm_at w db r c)
  door_alarm_at-IsNamed r none = missing
  door_alarm_at-IsNamed r (some c) = OnSome-if IsDoor _ (found _ refl) missing

  door_alarm_of-IsNamed :
      (since now : Time) (r : AlarmLog) → OnSome IsDoor (door_alarm_of w db since now r)
  door_alarm_of-IsNamed since now r = OnSome-if IsDoor _ (door_alarm_at-IsNamed r _) missing

  snapshot_at-IsNamed :
      (r : PedestalCache) (key : String) (at : Time) (c : Option Cabinet)
      → OnSome IsDoor (snapshot_at w db r key at c)
  snapshot_at-IsNamed r key at none = missing
  snapshot_at-IsNamed r key at (some c) = OnSome-if IsDoor _ missing (found _ refl)

  snapshot_seen-IsNamed :
      (since now : Time) (r : PedestalCache) (key : Option String) (at : Option Time)
      → OnSome IsDoor (snapshot_seen w db since now r key at)
  snapshot_seen-IsNamed since now r none at = missing
  snapshot_seen-IsNamed since now r (some key) none = missing
  snapshot_seen-IsNamed since now r (some key) (some at) =
      OnSome-if IsDoor _ (snapshot_at-IsNamed r key at _) missing

  pub fn-IsNamed :
      (rule : Rule) (since now : Time) → All (IsNamed (rule_id rule)) (fn rule w db since now)
  unfolding decoy_touch login_spray socket_cmd_odd_hour socket_cmd_new_ip account_new_endpoint
      door_no_window
  fn-IsNamed decoys since now =
      collect-All (IsNamed "decoy_touch") (decoy_finding w)
        (grouped_onto same_case (decoy_case w) (decoys_in since now db) []) decoy_finding-IsNamed
  fn-IsNamed sprays since now =
      collect-All (IsNamed "login_spray") (spray_finding w)
        (grouped_onto same_bucket spray_case (failed_logins since now db) []) spray_finding-IsNamed
  fn-IsNamed odd_hours since now =
      collect-All (IsNamed "socket_cmd_odd_hour") (odd_hour_of w)
        (outlet_cmds_in_window db since now) odd_hour_of-IsNamed
  fn-IsNamed new_addresses since now =
      collect-All (IsNamed "socket_cmd_new_ip") (new_ip_of w db)
        (outlet_cmds_in_window db since now) new_ip_of-IsNamed
  fn-IsNamed new_calls since now = new_endpoints-IsNamed [] _
  fn-IsNamed doors since now =
      append-All IsDoor (collect (door_alarm_of w db since now) db.alarm_log)
        (collect (snapshot_of w db since now) db.pedestal_cache)
        (collect-All IsDoor (door_alarm_of w db since now) db.alarm_log
          (door_alarm_of-IsNamed since now))
        (collect-All IsDoor (snapshot_of w db since now) db.pedestal_cache
          (λ r. snapshot_seen-IsNamed since now r r.cache_key r.last_synced_at))
