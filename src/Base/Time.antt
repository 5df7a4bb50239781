-- ===== src/Base/Time.antt =====
-- Times and durations of the backend (backend/app/utils/time.py): a naive UTC `datetime` is the
-- number of microseconds since 1970, a `timedelta` is a number of microseconds.
use Prim.Native.Nat.{ℕ, ◌+◌, ◌-◌, ◌*◌}
use erp_iot.Base.Int.{ℤ, pos_part, neg_part}
use mathlib.Core.Bool.{Bool}
use erp_iot.Base.Tests.{ltb}

abbrev pub Time : Type 0
Time = ℕ

abbrev pub seconds : ℕ → ℕ
seconds n = n * 1000000

abbrev pub minutes : ℕ → ℕ
minutes n = seconds (n * 60)

abbrev pub hours : ℕ → ℕ
hours n = minutes (n * 60)

abbrev pub days : ℕ → ℕ
days n = hours (n * 24)

-- `now - then > d`, where the difference may be negative
abbrev pub older_than : Time → Time → ℕ → Bool
older_than now before d = ltb (before + d) now

-- `at + timedelta(microseconds=d)`; no time of a row lies before 1970
abbrev pub shifted : Time → ℤ → Time
shifted at d = at + pos_part d - neg_part d
