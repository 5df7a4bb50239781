-- ===== src/Accounts/Lockout.antt =====
-- Repeated failures lock an account.
use erp_iot.Base.{◌+◌, ◌≤◌, ◌<◌, ◌≡◌, refl, some, List, [], ◌∷◌, arith, length}
use erp_iot.Base.Time.{Time, minutes}
use erp_iot.Accounts.{User, AuditRow, Settings, register_failure, failed_once, locked}

-- failures one after another, at these times
abbrev pub failures : Settings → List Time → User × List AuditRow → User × List AuditRow
failures cfg [] r = r
failures cfg (t ∷ times) r = failures cfg times (register_failure cfg t r)

abbrev pub last_time : Time → List Time → Time
last_time t [] = t
last_time t (u ∷ times) = last_time u times

register_failure-lock :
    (cfg : Settings) (now : Time) (u : User) (rows : List AuditRow)
    → cfg.lockout_threshold ≤ u.failed_count + 1
    → (register_failure cfg now (u, rows)).0 ≡ locked cfg now (failed_once u)
unfolding register_failure
register_failure-lock cfg now u rows h = ground arith

register_failure-count :
    (cfg : Settings) (now : Time) (u : User) (rows : List AuditRow)
    → u.failed_count + 1 < cfg.lockout_threshold
    → register_failure cfg now (u, rows) ≡ (failed_once u, rows)
unfolding register_failure
register_failure-count cfg now u rows h = ground arith

-- As many failures in a row as the threshold still leaves lock the account for the lock-out time
-- behind the last of them, and start the count again.
pub failures_lock :
    (cfg : Settings) (u : User) (rows : List AuditRow) (first_time : Time) (times : List Time)
    → u.failed_count + length times + 1 ≡ cfg.lockout_threshold
    → let v = (failures cfg (first_time ∷ times) (u, rows)).0 in
      (v.locked_until ≡ some (last_time first_time times + minutes cfg.lockout_minutes))
      × (v.failed_count ≡ 0)
failures_lock cfg u rows first_time [] h =
    rw (failures, register_failure-lock cfg first_time u rows (omega (arith, h))) (refl, refl)
failures_lock cfg u rows first_time (t ∷ times) h =
    rw (failures, register_failure-count cfg first_time u rows (omega (arith, h)))
      (failures_lock cfg (failed_once u) rows t times (omega (arith, h)))
