-- ===== src/Accounts/Tests.antt =====
-- Accounts at fixed values, and the theorems at them.
use erp_iot.Base.{not, ◌+◌, ◌≡◌, refl, true, false, none, some, List, [], ◌∷◌, str_eq}
use erp_iot.Base.Text.{strip}
use erp_iot.Base.Time.{seconds, minutes, hours}
use erp_iot.Cabinet.SessionPayload.Results.{ok, raise, type_error}
use erp_iot.Accounts.{
  User, admin, BackupCode, Settings, Libraries, verify_totp, verify, step_at, cleaned,
  use_backup_code, normalise_backup, is_locked, password_problem, too_short, issue_setup_link,
  find_setup_token,
}
use erp_iot.Accounts.Lockout.{failures, failures_lock}
use erp_iot.Accounts.Codes.{IsSpent, use_backup_code-once}
use erp_iot.Accounts.SignIn.{Store, access, login, user_by_email, mfa_verify}
use erp_iot.Accounts.SignIn.Refusals.{IsUniform, login-IsUniform}

-- a hash is the text itself, the code of every step is 123456, two digits are not of ASCII
abbrev lib : Libraries
lib = record {
  verify_hash = λ s h. str_eq s h;
  takes = λ s. not (str_eq s "");
  dummy_hash = "zzzz";
  is_digit = λ c. true;
  code_at = λ s n. "123456";
  sha256 = λ s. s;
  lower = λ s. s;
}

abbrev cfg : Settings
cfg = record { lockout_threshold = 5; lockout_minutes = 15 }

abbrev anna : User
anna = record {
  id = 1;
  email = "anna@marina";
  password_hash = some "a long password";
  role = admin;
  is_active = true;
  last_login = none;
  totp_secret = some "S";
  totp_confirmed_at = some (hours 1);
  totp_last_step = some 10;
  failed_count = 3;
  locked_until = none;
}

abbrev used : User
used = record anna { totp_last_step = some 11 }

abbrev store : Store
store = record { users = anna ∷ []; codes = []; links = []; audits = []; decoys = 0 }

code_used :
    (verify_totp lib used "123456" (seconds 310) ≡ ok (false, used))
    × (verify_totp lib anna "१२३४५६" (seconds 360) ≡ raise type_error)
unfolding verify_totp verify step_at cleaned strip
code_used = (refl, refl)

signed_in :
    mfa_verify cfg lib anna "123456" (seconds 360) store
    ≡ ok (
      access 1 (some (hours 1)),
      record store {
        users = record used { failed_count = 0; last_login = some (seconds 360) } ∷ [];
        audits =
            record {
              user_id = some 1;
              event = "login_ok";
              detail = some "totp";
              created_at = seconds 360;
            }
            ∷ [];
      },
    )
unfolding mfa_verify is_locked verify_totp verify step_at cleaned strip
signed_in = refl

link_once :
    (find_setup_token lib "raw-1" (hours 2) (issue_setup_link lib 1 60 "raw-1" (hours 1) []) ≡ none)
    × (password_problem "short" ≡ some too_short)
unfolding find_setup_token issue_setup_link password_problem
link_once = (refl, refl)

failures_lock_example :
    let v = (failures cfg (hours 1 ∷ hours 2 ∷ []) (anna, [])).0 in
    (v.locked_until ≡ some (hours 2 + minutes 15)) × (v.failed_count ≡ 0)
failures_lock_example = failures_lock cfg anna [] (hours 1) (hours 2 ∷ []) refl

abbrev two_codes : List BackupCode
two_codes =
    record { user_id = 1; code_hash = "abcd2345"; used_at = none }
    ∷ record { user_id = 1; code_hash = "zzzz7777"; used_at = none }
    ∷ []

abbrev one_code : List BackupCode
one_code =
    record { user_id = 1; code_hash = "abcd2345"; used_at = some (hours 3) }
    ∷ record { user_id = 1; code_hash = "zzzz7777"; used_at = none }
    ∷ []

backup_accepted : use_backup_code lib 1 "abcd-2345" (hours 3) two_codes ≡ ok (true, one_code)
unfolding use_backup_code strip
backup_accepted = refl

use_backup_code-once_example :
    IsSpent lib
      (normalise_backup lib "abcd-2345")
      1
      two_codes
      (use_backup_code lib 1 "abcd-2345" (hours 3) two_codes)
use_backup_code-once_example = use_backup_code-once lib 1 "abcd-2345" (hours 3) two_codes

login-IsUniform_example :
    IsUniform lib "wrong"
      (hours 3)
      (user_by_email "anna@marina" store.users)
      (login cfg lib (λ e. false) "anna@marina" "wrong" (hours 3) store)
login-IsUniform_example = login-IsUniform cfg lib (λ e. false) "anna@marina" "wrong" (hours 3) store
