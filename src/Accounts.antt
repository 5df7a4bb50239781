-- ===== src/Accounts.antt =====
-- backend/app/services/accounts.py and the sign-in routes of backend/app/routers/auth.py. The clock
-- is read once for a request; bcrypt, Fernet, sha256 and the random codes stand as arguments.
use erp_iot.Base.{
  ℕ, suc, ◌+◌, ◌*◌, ◌≤◌, ◌<>◌, String, Bool, true, false, not, ◌&&◌, ◌||◌, Option, none, some, List,
  [], ◌∷◌, ◌++◌, first, map, select, any, is_some, ltb, leb, ◌==◌, if◌then◌else◌, str_eq,
}
use erp_iot.Base.Text.{strip, replace_char}
use erp_iot.Base.Time.{Time, minutes}
use erp_iot.Cabinet.SessionPayload.Results.{Result, ok, raise, type_error, value_error, ◌>>=◌}
use Prim.Native.String
use Prim.Native.Char.{Char, code}
pub mod Table
pub mod Totp
pub mod SignIn
mod Lockout
mod Codes
mod Tests
pub use Table.*
unfoldable pub use Totp.*

-- the libraries: bcrypt's check of a text that it takes, which texts it takes (the others, longer than
-- 4096 characters or with a NUL, it raises on), a hash that no password has, `str.isdigit`, the TOTP code of a decrypted secret, sha256, and
-- `lower` of one character
pub record Libraries : Type 0 where
  pub verify_hash : String → String → Bool
  pub takes : String → Bool
  pub dummy_hash : String
  pub is_digit : ℕ → Bool
  pub code_at : CodeAt
  pub sha256 : String → String
  pub lower : String → String

abbrev pub length_of : String → ℕ
length_of String.[] = 0
length_of (String.◌∷◌ c s) = length_of s + 1

pub data PasswordProblem : Type 0 where
  too_short too_long : PasswordProblem

-- `password_problem`: twelve characters at least, seventy-two bytes at most
unfoldable pub password_problem : String → Option PasswordProblem
password_problem s =
    if ltb (length_of s) 12
    then some too_short
    else if ltb 72 (String.len s)
    then some too_long
    else none

-- `pwd_ctx.verify`
abbrev pub verify_or_raise : Libraries → (password hash : String) → Result Bool
verify_or_raise lib password hash =
    if lib.takes password then ok (lib.verify_hash password hash) else raise value_error

-- `check_password`, of the hash of the user where there is one
unfoldable pub check_password : Libraries → Option String → String → Result Bool
check_password lib none password = verify_or_raise lib password lib.dummy_hash >>= λ _. ok false
check_password lib (some hash) password = verify_or_raise lib password hash

-- `is_locked`
abbrev pub is_before : Time → Option Time → Bool
is_before now none = false
is_before now (some until) = ltb now until

unfoldable pub is_locked : User → Time → Bool
is_locked u now = is_before now u.locked_until

-- `audit`, of the user and of the reason that the answer never tells
abbrev pub audit : Option ℕ → String → Option String → Time → List AuditRow → List AuditRow
audit user event detail now rows =
    record { user_id = user; event = event; detail = detail; created_at = now } ∷ rows

-- `register_failure`
abbrev pub failed_once : User → User
failed_once u = record u { failed_count = u.failed_count + 1 }

abbrev pub locked : Settings → Time → User → User
locked cfg now u = record u {
  locked_until = some (now + minutes cfg.lockout_minutes);
  failed_count = 0;
}

unfoldable pub register_failure : Settings → Time → User × List AuditRow → User × List AuditRow
register_failure cfg now (u, rows) =
    if leb cfg.lockout_threshold (u.failed_count + 1)
    then (locked cfg now (failed_once u), audit (some u.id) "locked" none now rows)
    else (failed_once u, rows)

-- `register_success`
abbrev pub register_success : Time → User → User
register_success now u = record u { failed_count = 0; locked_until = none; last_login = some now }

-- `verify_totp`: whether the code is right, and the user with the step that it used
abbrev pub with_step : User → Option ℕ → Bool × User
with_step u none = (false, u)
with_step u (some step) = (true, record u { totp_last_step = some step })

abbrev pub verify_secret : Libraries → User → String → Time → Option String → Result (Bool × User)
verify_secret lib u entered now none = ok (false, u)
verify_secret lib u entered now (some secret) =
    verify lib.is_digit lib.code_at secret entered u.totp_last_step now >>= λ o. ok (with_step u o)

unfoldable pub verify_totp : Libraries → User → String → Time → Result (Bool × User)
verify_totp lib u entered now = verify_secret lib u entered now u.totp_secret

-- `_normalise_backup`
abbrev pub normalise_backup : Libraries → String → String
normalise_backup lib s = lib.lower (replace_char b' ' "" (replace_char b'-' "" (strip s)))

abbrev pub is_unused : ℕ → BackupCode → Bool
is_unused user c = c.user_id == user && not (is_some c.used_at)

-- a code that is left as it is, before the rest
abbrev pub passed_over :
    BackupCode → Result (Bool × List BackupCode) → Result (Bool × List BackupCode)
passed_over c (raise e) = raise e
passed_over c (ok (b, rest)) = ok (b, c ∷ rest)

-- the answer of bcrypt's check about one code
abbrev pub tried :
    BackupCode
    → Time
    → List BackupCode
    → (rest : Result (Bool × List BackupCode)) → Result Bool
    → Result (Bool × List BackupCode)
tried c now codes rest (raise e) = raise e
tried c now codes rest (ok true) = ok (true, record c { used_at = some now } ∷ codes)
tried c now codes rest (ok false) = passed_over c rest

-- the loop of `use_backup_code`
abbrev pub use_code :
    Libraries → ℕ → String → Time → List BackupCode → Result (Bool × List BackupCode)
use_code lib user raw now [] = ok (false, [])
use_code lib user raw now (c ∷ codes) =
    let rest = use_code lib user raw now codes in
    if is_unused user c
    then tried c now codes rest (verify_or_raise lib raw c.code_hash)
    else passed_over c rest

-- `use_backup_code`
unfoldable pub use_backup_code :
    Libraries → ℕ → String → Time → List BackupCode → Result (Bool × List BackupCode)
use_backup_code lib user entered now codes =
    let raw = normalise_backup lib entered in
    if length_of raw == 8 then use_code lib user raw now codes else ok (false, codes)

abbrev pub without_codes : ℕ → List BackupCode → List BackupCode
without_codes user codes = select (λ c. not (c.user_id == user)) codes

-- `new_backup_codes`, for the hashes of ten random codes
unfoldable pub new_backup_codes : ℕ → List String → List BackupCode → List BackupCode
new_backup_codes user hashes codes =
    map (λ h. record { user_id = user; code_hash = h; used_at = none }) hashes
    ++ without_codes user codes

-- `reset_mfa`
unfoldable pub reset_mfa : User × List BackupCode → User × List BackupCode
reset_mfa (u, codes) = (
  record u { totp_secret = none; totp_confirmed_at = none; totp_last_step = none },
  without_codes u.id codes,
)

-- `issue_setup_link`, for a random token
abbrev pub used_up : ℕ → Time → SetupToken → SetupToken
used_up user now t =
    if t.user_id == user && not (is_some t.used_at) then record t { used_at = some now } else t

unfoldable pub issue_setup_link :
    Libraries → ℕ → (lifetime : ℕ) → (raw : String) → Time → List SetupToken → List SetupToken
issue_setup_link lib user lifetime raw now tokens =
    record {
      token_hash = lib.sha256 raw;
      user_id = user;
      created_at = now;
      expires_at = now + minutes lifetime;
      used_at = none;
    }
    ∷ map (used_up user now) tokens

-- `find_setup_token`
abbrev pub unless_spent : Time → Option SetupToken → Option SetupToken
unless_spent now none = none
unless_spent now (some t) = if is_some t.used_at || leb t.expires_at now then none else some t

unfoldable pub find_setup_token : Libraries → String → Time → List SetupToken → Option SetupToken
find_setup_token lib raw now tokens =
    unless_spent now (first (λ t. str_eq t.token_hash (lib.sha256 raw)) tokens)
