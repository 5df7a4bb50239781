-- ===== src/Agent/Opened.antt =====
-- backend/app/agent/run.py: what a pass writes.
use erp_iot.Base.{
  ℕ, ◌+◌, ◌-◌, ◌≡◌, refl, inl, inr, sym, List, [], ◌∷◌, ◌++◌, All, Bool-cases, length, ap, ◌∙◌,
  String, arith, length-append,
}
use erp_iot.Base.Time.{Time}
use erp_iot.Agent.Tables.{
  Mode, shadow, active, SecurityAlarm, SecurityRuleSetting, still_open, Store,
}
use erp_iot.Agent.{World, Finding, fingerprint}
use erp_iot.Agent.Named.{IsNamed, fn-IsNamed, append-All}
use erp_iot.Agent.Pass.{
  Rule, rules, rule_id, fn, alarm_of, is_recorded, Opened, insert, insert_all, mode_of, written,
  apply_rules, run_once, total_opened,
}
use mathlib.Core.List.{append_assoc}

-- an alarm that this pass opened, of a rule that is switched on
abbrev pub IsOwn : List SecurityRuleSetting → Time → SecurityAlarm → Type 0
IsOwn settings now a =
    (mode_of settings a.rule_id ≡ active) × (a.state ≡ still_open) × (a.created_at ≡ now)

-- The alarms grew by so many of a kind, counted behind what was counted, and nothing else changed.
abbrev pub Grew : (SecurityAlarm → Type 0) → (before after : Opened) → Type 0
Grew P before after =
    (new : List SecurityAlarm) × (after.0 ≡ new ++ before.0)
    × All P new
    × (length new + before.1 ≡ after.1)

module _ (P : SecurityAlarm → Type 0) where
  Grew-none : (r : Opened) → Grew P r r
  Grew-none r = ([], refl, tt, omega arith)

  -- a second count starts at zero
  Grew-join :
      (a b : Opened) (c : List SecurityAlarm) (n : ℕ)
      → Grew P a b
      → Grew P (b.0, 0) (c, n)
      → Grew P a (c, b.1 + n)
  Grew-join a b c n (new, e, h, l) (more, e', h', l') = (
    more ++ new,
    e' ∙ ap (λ rows. more ++ rows) e ∙ sym (append_assoc more new a.0),
    append-All P more new h' h,
    omega (arith, l, l', length-append more new),
  )

module _ (w : World) (now : Time) (settings : List SecurityRuleSetting) where
  insert-Grew :
      (f : Finding) (r : Opened)
      → mode_of settings f.rule_id ≡ active
      → Grew (IsOwn settings now) r (insert w now f r)
  unfolding insert
  insert-Grew f (alarms, n) h = elim (Bool-cases (is_recorded (fingerprint w f) alarms)) [
    | inl t ↦ rw t (Grew-none (IsOwn settings now) (alarms, n))
    | inr free ↦ rw free (alarm_of w now f ∷ [], refl, ((h, refl, refl), tt), omega arith)
  ]

  Grew-trans :
      (a b c : Opened)
      → Grew (IsOwn settings now) a b
      → Grew (IsOwn settings now) b c
      → Grew (IsOwn settings now) a c
  Grew-trans a b c (new, e, h, l) (more, e', h', l') = (
    more ++ new,
    e' ∙ ap (λ rows. more ++ rows) e ∙ sym (append_assoc more new a.0),
    append-All (IsOwn settings now) more new h' h,
    omega (arith, l, l', length-append more new),
  )

  insert_all-Grew :
      (id : String) (fs : List Finding) (r : Opened)
      → mode_of settings id ≡ active
      → All (IsNamed id) fs
      → Grew (IsOwn settings now) r (insert_all w now fs r)
  insert_all-Grew id [] r h named = Grew-none (IsOwn settings now) r
  insert_all-Grew id (f ∷ fs) r h (e, named) =
      Grew-trans r (insert w now f r) _ (insert-Grew f r (ap (mode_of settings) e ∙ h))
        (insert_all-Grew id fs (insert w now f r) h named)

  written-Grew :
      (id : String) (m : Mode) (fs : List Finding) (r : Opened)
      → mode_of settings id ≡ m
      → All (IsNamed id) fs
      → Grew (IsOwn settings now) r (written w now m fs r)
  written-Grew id active fs r h named = insert_all-Grew id fs r h named
  written-Grew id shadow fs r h named = Grew-none (IsOwn settings now) r

apply_rules-Grew :
    (w : World) (db : Store) (since now : Time) (rs : List Rule) (alarms : List SecurityAlarm)
    → let r = apply_rules w db since now rs alarms in
      Grew (IsOwn db.rule_settings now) (alarms, 0) (r.1, total_opened r.0)
apply_rules-Grew w db since now [] alarms = Grew-none (IsOwn db.rule_settings now) (alarms, 0)
apply_rules-Grew w db since now (rule ∷ rs) alarms =
    let fs = fn rule w db since now in
    Grew-join (IsOwn db.rule_settings now) (alarms, 0) _ _ _
      (written-Grew w now db.rule_settings (rule_id rule) (mode_of db.rule_settings (rule_id rule))
        fs (alarms, 0) refl (fn-IsNamed w db rule since now))
      (apply_rules-Grew w db since now rs _)

-- A pass only adds alarms: those that were there stay as they were, every new one is open, of this
-- time and of a rule that is switched on, and the pass says how many they are.
pub run_once-Grew :
    (w : World) (window : ℕ) (now : Time) (db : Store)
    → let r = run_once w window now db in
      Grew
        (IsOwn db.rule_settings now)
        (db.security_alarms, 0)
        (r.1.security_alarms, total_opened r.0)
unfolding run_once
run_once-Grew w window now db = apply_rules-Grew w db (now - window) now rules db.security_alarms
