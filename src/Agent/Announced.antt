-- ===== src/Agent/Announced.antt =====
-- backend/app/agent/rules.py: an announced service window keeps the door rule silent.
use erp_iot.Base.{
  ℕ, String, ◌≡◌, refl, inl, inr, Bool, true, false, ◌&&◌, Option, none, some, List, [], ◌∷◌, All,
  Bool-cases, select, first-All, if◌then◌else◌, arith, subst, ◌==◌,
}
use erp_iot.Base.Json.{get_json, or_null}
use erp_iot.Base.Time.{Time}
use erp_iot.Agent.Tables.{AlarmLog, Cabinet, PedestalCache, Store}
use erp_iot.Agent.{World, Finding, collect, in_window, as_dict}
use erp_iot.Agent.Doors.{
  window_covers, door_no_window, door_alarm_of, door_alarm_at, snapshot_of, snapshot_at,
  snapshot_seen, alarm_cabinet, snapshot_cabinet, only, is_open_door, is_like, says,
}

-- a service window of the cabinet covers each time of the pass
abbrev pub IsAnnounced : Store → (since now : Time) → Cabinet → Type 0
IsAnnounced db since now c =
    (at : Time) → in_window since now at ≡ true → window_covers db c.id at ≡ true

collect-none {ℓ κ} :
    {A : Type ℓ} {B : Type κ} (f : A → Option B) (xs : List A)
    → ((x : A) → f x ≡ none)
    → collect f xs ≡ []
collect-none f [] h = refl
collect-none f (x ∷ xs) h = rw (collect, h x) (collect-none f xs h)

select-All {ℓ κ} :
    {A : Type ℓ} (P : A → Type κ) (p : A → Bool) (xs : List A) → All P xs → All P (select p xs)
select-All P p [] h = h
select-All P p (x ∷ xs) (k, h) = elim (Bool-cases (p x)) [
  | inl e ↦ rw e (k, select-All P p xs h)
  | inr e ↦ rw e (select-All P p xs h)
]

only-All {ℓ κ} :
    {A : Type ℓ} (P : A → Type κ) (xs : List A) (x : A) → All P xs → only xs ≡ some x → P x
only-All P [] x h e = ground arith
only-All P (y ∷ []) x (k, h) e = subst P (ground arith) k
only-All P (y ∷ z ∷ xs) x h e = ground arith

unless_false : (b : Bool) (f : Finding) → (if b && false then some f else none) ≡ none
unless_false true f = refl
unless_false false f = refl

if_none {ℓ} :
    {A : Type ℓ} (b : Bool) (o : Option A) → (b ≡ true → o ≡ none) → (if b then o else none) ≡ none
if_none true o h = h refl
if_none false o h = refl

and_left : (a b : Bool) → (a && b) ≡ true → a ≡ true
and_left true b h = refl
and_left false b h = h

and_right : (a b : Bool) → (a && b) ≡ true → b ≡ true
and_right true b h = h
and_right false b h = ground arith

module _ (w : World) (db : Store) (since now : Time) where
  module _ (announced : All (IsAnnounced db since now) db.cabinets) where
    door_alarm_at-none :
        (r : AlarmLog) (c : Option Cabinet)
        → in_window since now r.received_at ≡ true
        → ((x : Cabinet) → c ≡ some x → IsAnnounced db since now x)
        → door_alarm_at w db r c ≡ none
    door_alarm_at-none r none t h = refl
    door_alarm_at-none r (some c) t h =
        rw (h c refl r.received_at t) (unless_false (is_open_door w (as_dict w r.alarm_data)) _)

    snapshot_at-none :
        (r : PedestalCache) (key : String) (at : Time) (c : Option Cabinet)
        → in_window since now at ≡ true
        → ((x : Cabinet) → c ≡ some x → IsAnnounced db since now x)
        → snapshot_at w db r key at c ≡ none
    snapshot_at-none r key at none t h = refl
    snapshot_at-none r key at (some c) t h = rw (h c refl at t) refl

    snapshot_cabinet-IsAnnounced :
        (marina : ℕ) (key : String) (c : Cabinet)
        → snapshot_cabinet db marina key ≡ some c
        → IsAnnounced db since now c
    unfolding snapshot_cabinet
    snapshot_cabinet-IsAnnounced marina key c e =
        only-All (IsAnnounced db since now) _ c
          (select-All (IsAnnounced db since now) _ db.cabinets announced) e

    alarm_cabinet-IsAnnounced :
        (id : Option ℕ) (c : Cabinet) → alarm_cabinet db id ≡ some c → IsAnnounced db since now c
    alarm_cabinet-IsAnnounced none c e = ground arith
    alarm_cabinet-IsAnnounced (some id) c e =
        first-All (IsAnnounced db since now) (λ x. x.id == id) db.cabinets c announced e

    door_alarm_of-none : (r : AlarmLog) → door_alarm_of w db since now r ≡ none
    door_alarm_of-none r = if_none (in_window since now r.received_at) _ (λ t.
        door_alarm_at-none r (alarm_cabinet db r.cabinet_id) t
          (alarm_cabinet-IsAnnounced r.cabinet_id))

    snapshot_seen-none :
        (r : PedestalCache) (key : Option String) (at : Option Time)
        → snapshot_seen w db since now r key at ≡ none
    snapshot_seen-none r none at = refl
    snapshot_seen-none r (some key) none = refl
    snapshot_seen-none r (some key) (some at) =
        if_none (is_like "pedestals.status_ext:" key && in_window since now at && is_open r) _ (λ t.
          snapshot_at-none r key at (snapshot_cabinet db r.marina_id key)
            (and_right (is_like "pedestals.status_ext:" key) (in_window since now at)
              (and_left _ (is_open r) t))
            (snapshot_cabinet-IsAnnounced r.marina_id key))
      where
        is_open : PedestalCache → Bool
        is_open r = says w "open" (or_null (get_json "door_state" (as_dict w r.last_seen_data)))

-- Where the announced service windows cover the whole pass for every cabinet, the rule of the doors
-- finds nothing, whatever the cabinets report.
pub door_no_window-announced :
    (w : World) (db : Store) (since now : Time)
    → All (IsAnnounced db since now) db.cabinets
    → door_no_window w db since now ≡ []
unfolding door_no_window
door_no_window-announced w db since now h =
    rw
      (
        collect-none (door_alarm_of w db since now) db.alarm_log
            (door_alarm_of-none w db since now h),
        collect-none (snapshot_of w db since now) db.pedestal_cache
            (λ r. snapshot_seen-none w db since now h r r.cache_key r.last_synced_at),
      )
      refl
