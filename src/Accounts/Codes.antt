-- ===== src/Accounts/Codes.antt =====
-- A code works once: the step of a TOTP code only grows, and a backup code is marked.
use erp_iot.Base.{
  ℕ, ◌+◌, ◌≤◌, ◌<◌, ◌≡◌, inl, inr, refl, ap, String, Bool, true, false, Option, none, some, List,
  [], ◌∷◌, arith, Bool-cases, ◌==◌, length, select, str_eq,
}
use erp_iot.Base.Time.{Time}
use erp_iot.Cabinet.SessionPayload.Results.{Result, value_error, raise, ok}
use erp_iot.Accounts.{
  normalise_backup, length_of, User, BackupCode, Libraries, step_at, CodeAt, cleaned,
  use_backup_code, use_code, tried, passed_over, is_unused, normalise_backup, length_of,
}

-- A step that may be used behind the last one.
abbrev pub IsNew : Option ℕ → ℕ → Type 0
IsNew none step = Unit {0}
IsNew (some last) step = last < step

-- What `verify` promises of its answer.
pub record IsFresh (codes : CodeAt) (secret entered : String) (last : Option ℕ) (now : Time)
    (step : ℕ) : Type 0 where
  pub matches : str_eq (codes secret step) (cleaned entered) ≡ true
  pub recent : step_at now ≤ step + 1
  pub not_far : step ≤ step_at now + 1
  pub is_new : IsNew last step

abbrev Promised : CodeAt → String → String → Option ℕ → Time → Option ℕ → Type 0
Promised codes secret entered last now none = Unit {0}
Promised codes secret entered last now (some step) = IsFresh codes secret entered last now step

-- A user behind a code that was right.
record IsUsed (lib : Libraries) (u : User) (entered : String) (now : Time) (r : Bool × User)
    : Type 0 where
  step : ℕ
  kept : (r.1.totp_last_step ≡ some step) × (r.1.failed_count ≡ u.failed_count)
  new : IsNew u.totp_last_step step
  recent : (step_at now ≤ step + 1) × (step ≤ step_at now + 1)

abbrev IsUsedOrSame : Libraries → User → String → Time → Bool × User → Type 0
IsUsedOrSame lib u entered now (true, v) = IsUsed lib u entered now (true, v)
IsUsedOrSame lib u entered now (false, v) = v ≡ u

-- the backup codes of a user that still work
abbrev pub unused : ℕ → List BackupCode → ℕ
unused user codes = length (select (is_unused user) codes)

abbrev pub one_if : Bool → ℕ
one_if true = 1
one_if false = 0

unused-cons :
    (user : ℕ) (c : BackupCode) (codes : List BackupCode)
    → unused user (c ∷ codes) ≡ one_if (is_unused user c) + unused user codes
unused-cons user c codes = elim (Bool-cases (is_unused user c)) [
  | inl b ↦ rw b (omega arith)
  | inr b ↦ rw b (omega arith)
]

used_now :
    (user : ℕ) (c : BackupCode) (now : Time)
    → is_unused user (record c { used_at = some now }) ≡ false
used_now user c now = ground arith

-- What a use of backup codes does: it ends in the exception of bcrypt's check, on a text that the check
-- does not take, or it says whether a code was accepted, and takes that many codes out of use.
abbrev pub IsSpent :
    Libraries
    → (raw : String) → ℕ
    → (before : List BackupCode) → Result (Bool × List BackupCode)
    → Type 0
IsSpent lib raw user before (raise e) = (e ≡ value_error) × (lib.takes raw ≡ false)
IsSpent lib raw user before (ok (b, after)) = unused user before ≡ one_if b + unused user after

passed_over-IsSpent :
    (lib : Libraries) (raw : String) (user : ℕ) (c : BackupCode) (codes : List BackupCode)
    (r : Result (Bool × List BackupCode))
    → IsSpent lib raw user codes r
    → IsSpent lib raw user (c ∷ codes) (passed_over c r)
passed_over-IsSpent lib raw user c codes (raise e) h = h
passed_over-IsSpent lib raw user c codes (ok (b, after)) h =
    omega (arith, h, unused-cons user c codes, unused-cons user c after)

tried-IsSpent :
    (lib : Libraries) (raw : String) (user : ℕ) (now : Time) (c : BackupCode)
    (codes : List BackupCode) (rest : Result (Bool × List BackupCode)) (good : Bool)
    → is_unused user c ≡ true
    → IsSpent lib raw user codes rest
    → IsSpent lib raw user (c ∷ codes) (tried c now codes rest (ok good))
tried-IsSpent lib raw user now c codes rest true u h = omega (
  arith,
  unused-cons user c codes,
  unused-cons user (record c { used_at = some now }) codes,
  ap one_if (used_now user c now),
  ap one_if u,
)
tried-IsSpent lib raw user now c codes rest false u h =
    passed_over-IsSpent lib raw user c codes rest h

use_code-IsSpent :
    (lib : Libraries) (user : ℕ) (raw : String) (now : Time) (codes : List BackupCode)
    → IsSpent lib raw user codes (use_code lib user raw now codes)
use_code-IsSpent lib user raw now [] = refl
use_code-IsSpent lib user raw now (c ∷ codes) =
    let rest = use_code-IsSpent lib user raw now codes in
    elim (Bool-cases (is_unused user c)) [
      | inr f ↦ rw f (passed_over-IsSpent lib raw user c codes _ rest)
      | inl u ↦ elim (Bool-cases (lib.takes raw)) [
        | inl t ↦ rw (u, t) (tried-IsSpent lib raw user now c codes _ _ u rest)
        | inr f ↦ rw (u, f) (refl, f)
      ]
    ]

-- A backup code that is accepted takes exactly one of the user's codes out of use, and one that is
-- refused takes none. The only other end is the exception of bcrypt's check, on a code that the
-- check does not take.
pub use_backup_code-once :
    (lib : Libraries) (user : ℕ) (entered : String) (now : Time) (codes : List BackupCode)
    → IsSpent lib
        (normalise_backup lib entered)
        user
        codes
        (use_backup_code lib user entered now codes)
unfolding use_backup_code
use_backup_code-once lib user entered now codes =
    elim (Bool-cases (length_of (normalise_backup lib entered) == 8)) [
      | inl b ↦
          rw (use_backup_code, b)
            (use_code-IsSpent lib user (normalise_backup lib entered) now codes)
      | inr b ↦ rw (use_backup_code, b) (omega arith)
    ]
