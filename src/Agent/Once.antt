-- ===== src/Agent/Once.antt =====
-- backend/app/agent/run.py: one alarm at most for a case, however often the windows overlap.
use erp_iot.Base.{
  ℕ, ◌+◌, ◌-◌, String, ◌≡◌, refl, inl, inr, sym, subst, true, false, List, [], ◌∷◌, All, Bool-cases,
  eq_iff, arith,
}
use erp_iot.Base.Time.{Time}
use erp_iot.Agent.Tables.{Mode, shadow, active, SecurityAlarm, SecurityAgentPass, Store}
use erp_iot.Agent.{World, Finding, fingerprint}
use erp_iot.Agent.SignIns.{decoy_touch, login_spray}
use erp_iot.Agent.Commands.{socket_cmd_odd_hour, socket_cmd_new_ip, account_new_endpoint}
use erp_iot.Agent.Doors.{door_no_window, snapshot_cabinet}
use erp_iot.Agent.Pass.{
  Rule, rules, rule_id, fn, is_recorded, Opened, insert, insert_all, mode_of, written, decoys,
  sprays, odd_hours, new_addresses, new_calls, doors, apply_rules, run_once, passes, total_opened,
}

-- the unique constraint on the fingerprint
abbrev pub IsDistinct : List SecurityAlarm → Type 0
IsDistinct [] = Unit {0}
IsDistinct (a ∷ alarms) = (is_recorded a.fingerprint alarms ≡ false) × IsDistinct alarms

module _ (w : World) where
  insert-IsDistinct :
      (now : Time) (f : Finding) (r : Opened) → IsDistinct r.0 → IsDistinct (insert w now f r).0
  unfolding insert
  insert-IsDistinct now f (alarms, n) h = elim (Bool-cases (is_recorded (fingerprint w f) alarms)) [
    | inl t ↦ rw t h
    | inr free ↦ rw free (free, h)
  ]

  insert_all-IsDistinct :
      (now : Time) (fs : List Finding) (r : Opened)
      → IsDistinct r.0
      → IsDistinct (insert_all w now fs r).0
  insert_all-IsDistinct now [] r h = h
  insert_all-IsDistinct now (f ∷ fs) r h =
      insert_all-IsDistinct now fs (insert w now f r) (insert-IsDistinct now f r h)

  written-IsDistinct :
      (now : Time) (mode : Mode) (fs : List Finding) (r : Opened)
      → IsDistinct r.0
      → IsDistinct (written w now mode fs r).0
  written-IsDistinct now active fs r h = insert_all-IsDistinct now fs r h
  written-IsDistinct now shadow fs r h = h

  apply_rules-IsDistinct :
      (db : Store) (since now : Time) (rs : List Rule) (alarms : List SecurityAlarm)
      → IsDistinct alarms
      → IsDistinct (apply_rules w db since now rs alarms).1
  apply_rules-IsDistinct db since now [] alarms h = h
  apply_rules-IsDistinct db since now (rule ∷ rs) alarms h =
      apply_rules-IsDistinct db since now rs _ (
        written-IsDistinct now (mode_of db.rule_settings (rule_id rule)) (fn rule w db since now)
          (alarms, 0) h)

  run_once-IsDistinct :
      (window : ℕ) (now : Time) (db : Store)
      → IsDistinct db.security_alarms
      → IsDistinct (run_once w window now db).1.security_alarms
  unfolding run_once
  run_once-IsDistinct window now db h =
      apply_rules-IsDistinct db (now - window) now rules db.security_alarms h

-- Passes at any times, over windows that may overlap, never leave two alarms of one fingerprint.
pub passes-IsDistinct :
    (w : World) (window : ℕ) (times : List Time) (db : Store)
    → IsDistinct db.security_alarms
    → IsDistinct (passes w window times db).security_alarms
passes-IsDistinct w window [] db h = h
passes-IsDistinct w window (now ∷ times) db h =
    passes-IsDistinct w window times (run_once w window now db).1
      (run_once-IsDistinct w window now db h)

-- Is the fingerprint of every finding there already?
abbrev AllRecorded : World → List SecurityAlarm → List Finding → Type 0
AllRecorded w alarms fs = All (λ f. is_recorded (fingerprint w f) alarms ≡ true) fs

module _ (w : World) where
  insert-keeps :
      (print : String) (now : Time) (f : Finding) (r : Opened)
      → is_recorded print r.0 ≡ true
      → is_recorded print (insert w now f r).0 ≡ true
  unfolding insert
  insert-keeps print now f (alarms, n) h =
      elim (Bool-cases (is_recorded (fingerprint w f) alarms)) [
        | inl t ↦ rw t h
        | inr free ↦ rw free (ground (arith, h))
      ]

  insert_all-keeps :
      (print : String) (now : Time) (fs : List Finding) (r : Opened)
      → is_recorded print r.0 ≡ true
      → is_recorded print (insert_all w now fs r).0 ≡ true
  insert_all-keeps print now [] r h = h
  insert_all-keeps print now (f ∷ fs) r h =
      insert_all-keeps print now fs (insert w now f r) (insert-keeps print now f r h)

  insert-records :
      (now : Time) (f : Finding) (r : Opened)
      → is_recorded (fingerprint w f) (insert w now f r).0 ≡ true
  unfolding insert
  insert-records now f (alarms, n) = elim (Bool-cases (is_recorded (fingerprint w f) alarms)) [
    | inl t ↦ rw t t
    | inr free ↦ rw (free, (eq_iff (fingerprint w f) (fingerprint w f)).1 refl) refl
  ]

  insert_all-records :
      (now : Time) (fs : List Finding) (r : Opened) → AllRecorded w (insert_all w now fs r).0 fs
  insert_all-records now [] r = tt
  insert_all-records now (f ∷ fs) r = (
    insert_all-keeps (fingerprint w f) now fs (insert w now f r) (insert-records now f r),
    insert_all-records now fs (insert w now f r),
  )

  insert_all-known :
      (now : Time) (fs : List Finding) (r : Opened)
      → AllRecorded w r.0 fs
      → insert_all w now fs r ≡ r
  unfolding insert
  insert_all-known now [] r h = refl
  insert_all-known now (f ∷ fs) (alarms, n) (k, h) =
      rw (insert_all, k) (insert_all-known now fs (alarms, n) h)

counted : {P : Type 0} {n : ℕ} → P × (n ≡ 0) → P × (0 + n ≡ 0)
counted (p, e) = (p, omega (arith, e))

-- a rule that is switched on has an alarm for each of its findings
abbrev IsDone : World → List SecurityAlarm → Mode → List Finding → Type 0
IsDone w alarms active fs = AllRecorded w alarms fs
IsDone w alarms shadow fs = Unit {0}

module _ (w : World) (db : Store) (since now : Time) where
  abbrev mode : Rule → Mode
  mode rule = mode_of db.rule_settings (rule_id rule)

  abbrev AllDone : List SecurityAlarm → List Rule → Type 0
  AllDone alarms rs = All (λ r. IsDone w alarms (mode r) (fn r w db since now)) rs

  written-keeps :
      (print : String) (m : Mode) (fs : List Finding) (r : Opened)
      → is_recorded print r.0 ≡ true
      → is_recorded print (written w now m fs r).0 ≡ true
  written-keeps print active fs r h = insert_all-keeps w print now fs r h
  written-keeps print shadow fs r h = h

  apply_rules-keeps :
      (print : String) (rs : List Rule) (alarms : List SecurityAlarm)
      → is_recorded print alarms ≡ true
      → is_recorded print (apply_rules w db since now rs alarms).1 ≡ true
  apply_rules-keeps print [] alarms h = h
  apply_rules-keeps print (rule ∷ rs) alarms h =
      apply_rules-keeps print rs _
        (written-keeps print (mode rule) (fn rule w db since now) (alarms, 0) h)

  AllRecorded-kept :
      (rs : List Rule) (alarms : List SecurityAlarm) (fs : List Finding)
      → AllRecorded w alarms fs
      → AllRecorded w (apply_rules w db since now rs alarms).1 fs
  AllRecorded-kept rs alarms [] h = tt
  AllRecorded-kept rs alarms (f ∷ fs) (k, h) =
      (apply_rules-keeps (fingerprint w f) rs alarms k, AllRecorded-kept rs alarms fs h)

  written-IsDone :
      (m : Mode) (rs : List Rule) (fs : List Finding) (alarms : List SecurityAlarm)
      → IsDone w (apply_rules w db since now rs (written w now m fs (alarms, 0)).0).1 m fs
  written-IsDone active rs fs alarms =
      AllRecorded-kept rs _ fs (insert_all-records w now fs (alarms, 0))
  written-IsDone shadow rs fs alarms = tt

  apply_rules-AllDone :
      (rs : List Rule) (alarms : List SecurityAlarm)
      → AllDone (apply_rules w db since now rs alarms).1 rs
  apply_rules-AllDone [] alarms = tt
  apply_rules-AllDone (rule ∷ rs) alarms =
      (written-IsDone (mode rule) rs (fn rule w db since now) alarms, apply_rules-AllDone rs _)

  written-known :
      (m : Mode) (fs : List Finding) (alarms : List SecurityAlarm)
      → IsDone w alarms m fs
      → written w now m fs (alarms, 0) ≡ (alarms, 0)
  written-known active fs alarms h = insert_all-known w now fs (alarms, 0) h
  written-known shadow fs alarms h = refl

  apply_rules-known :
      (rs : List Rule) (alarms : List SecurityAlarm)
      → AllDone alarms rs
      → let r = apply_rules w db since now rs alarms in (r.1 ≡ alarms) × (total_opened r.0 ≡ 0)
  apply_rules-known [] alarms h = (refl, refl)
  apply_rules-known (rule ∷ rs) alarms (k, h) =
      rw (written-known (mode rule) (fn rule w db since now) alarms k)
        (counted (apply_rules-known rs alarms h))

-- No rule reads what the agent writes.
abbrev with_writes : List SecurityAlarm → List SecurityAgentPass → Store → Store
with_writes alarms done db = record db { security_alarms = alarms; passes = done }

module _ (w : World) (db : Store) (alarms : List SecurityAlarm)
    (done : List SecurityAgentPass) where
  fn-with_writes :
      (rule : Rule) (since now : Time)
      → fn rule w (with_writes alarms done db) since now ≡ fn rule w db since now
  unfolding decoy_touch login_spray socket_cmd_odd_hour socket_cmd_new_ip account_new_endpoint
      door_no_window snapshot_cabinet
  fn-with_writes decoys since now = refl
  fn-with_writes sprays since now = refl
  fn-with_writes odd_hours since now = refl
  fn-with_writes new_addresses since now = refl
  fn-with_writes new_calls since now = refl
  fn-with_writes doors since now = refl

  apply_rules-with_writes :
      (since now : Time) (rs : List Rule) (before : List SecurityAlarm)
      → apply_rules w (with_writes alarms done db) since now rs before
        ≡ apply_rules w db since now rs before
  apply_rules-with_writes since now [] before = refl
  apply_rules-with_writes since now (rule ∷ rs) before =
      rw (apply_rules, fn-with_writes rule since now, apply_rules-with_writes since now rs) refl

-- Two passes at the same time: the second opens no alarm and leaves those of the first, whichever
-- rules are switched on.
pub run_once-again :
    (w : World) (window : ℕ) (now : Time) (db : Store)
    → let once = run_once w window now db in
      let twice = run_once w window now once.1 in
      (twice.1.security_alarms ≡ once.1.security_alarms) × (total_opened twice.0 ≡ 0)
unfolding run_once
run_once-again w window now db =
    let since = now - window in
    let first_pass = apply_rules w db since now rules db.security_alarms in
    subst (λ r. (r.1 ≡ first_pass.1) × (total_opened r.0 ≡ 0))
      (sym (
        apply_rules-with_writes w db first_pass.1 (run_once w window now db).1.passes since now
          rules first_pass.1))
      (apply_rules-known w db since now rules first_pass.1
        (apply_rules-AllDone w db since now rules db.security_alarms))
