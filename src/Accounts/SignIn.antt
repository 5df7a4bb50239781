-- ===== src/Accounts/SignIn.antt =====
-- backend/app/routers/auth.py: the password step, the code step, the one-time link and the guards of
-- the other routes. A token is the value that it carries; signing it is the JWT library's.
use erp_iot.Base.{
  ℕ, suc, ◌+◌, ◌<>◌, String, Bool, true, false, not, ◌&&◌, ◌||◌, Option, none, some, List, [], ◌∷◌,
  first, map, any, is_some, ltb, leb, ◌==◌, if◌then◌else◌, str_eq,
}
use erp_iot.Base.Time.{Time, minutes}
use erp_iot.Cabinet.SessionPayload.Results.{Result, ok, raise, ◌>>=◌}
use erp_iot.Accounts.{
  User, Role, admin, marina_manager, BackupCode, SetupToken, AuditRow, Settings, Libraries,
  check_password, is_locked, register_failure, register_success, verify_totp, use_backup_code,
  password_problem, find_setup_token, audit,
}
pub mod Refusals

-- `decoys` counts the rows that a decoy address leaves
pub record Store : Type 0 where
  pub users : List User
  pub codes : List BackupCode
  pub links : List SetupToken
  pub audits : List AuditRow
  pub decoys : ℕ

-- the answers of the routes: the two tokens, and the refusals by their text
pub data Answer : Type 0 where
  challenge : (user : ℕ) → (enrolled : Bool) → Answer
  access : (user : ℕ) → (mfa_at : Option Time) → Answer
  bad_login bad_code bad_link bad_password not_linked unauthorized forbidden : Answer

-- the status code of an answer
abbrev pub status_of : Answer → ℕ
status_of (challenge _ _) = 200
status_of (access _ _) = 200
status_of bad_login = 401
status_of bad_code = 401
status_of bad_link = 410
status_of bad_password = 422
status_of not_linked = 409
status_of unauthorized = 401
status_of forbidden = 403

-- the row behind a change of one user
abbrev pub put_user : User → List User → List User
put_user u users = map (λ v. if v.id == u.id then u else v) users

abbrev pub with_user : User × List AuditRow → Store → Store
with_user (u, rows) st = record st { users = put_user u st.users; audits = rows }

-- the reason of a refusal at the password step; `none` lets it pass
abbrev pub reason : (has_password locked password_ok active : Bool) → Option String
reason false locked password_ok active = some "no password set"
reason true true password_ok active = some "locked"
reason true false false active = some "wrong password"
reason true false true false = some "account disabled"
reason true false true true = none

abbrev pub refusal : Time → User → (password_ok : Bool) → Option String
refusal now u password_ok =
    reason (is_some u.password_hash) (is_locked u now) password_ok u.is_active

-- a wrong password of an account that is not locked counts
abbrev pub counts : Time → User → (password_ok : Bool) → Bool
counts now u password_ok = is_some u.password_hash && not (is_locked u now) && not password_ok

abbrev pub counted : Settings → Time → Bool → User × List AuditRow → User × List AuditRow
counted cfg now true r = register_failure cfg now r
counted cfg now false r = r

abbrev pub refuse_login : ℕ → String → Time → User × List AuditRow → User × List AuditRow
refuse_login id reason now (u, rows) = (u, audit (some id) "login_failed" (some reason) now rows)

-- the rest of the password step, for a user and the reason of a refusal
abbrev pub answer_login :
    Settings → Time → Store → User → (password_ok : Bool) → Option String → Answer × Store
answer_login cfg now st u password_ok (some reason) = (
  bad_login,
  with_user
      (refuse_login u.id reason now (counted cfg now (counts now u password_ok) (u, st.audits))) st,
)
answer_login cfg now st u password_ok none = (
  challenge u.id (is_some u.totp_confirmed_at),
  record st { audits = audit (some u.id) "password_ok" none now st.audits },
)

abbrev pub login_of : Settings → Time → Store → (password_ok : Bool) → Option User → Answer × Store
login_of cfg now st password_ok none = (
  bad_login,
  record st { audits = audit none "login_failed" (some "unknown email") now st.audits },
)
login_of cfg now st password_ok (some u) =
    answer_login cfg now st u password_ok (refusal now u password_ok)

abbrev pub user_by_email : String → List User → Option User
user_by_email email users = first (λ u. str_eq u.email email) users

-- a decoy address that belongs to no user leaves a row
abbrev pub touched : Bool → Option User → Answer × Store → Answer × Store
touched true none (a, st) = (a, record st { decoys = st.decoys + 1 })
touched _ _ r = r

abbrev pub hash_of : Option User → Option String
hash_of none = none
hash_of (some u) = u.password_hash

-- `login`; `is_decoy` is `is_decoy_account` of the address, and an exception of bcrypt's check leaves
-- the handler before anything is stored
unfoldable pub login :
    Settings
    → Libraries
    → (is_decoy : String → Bool) → (email password : String) → Time
    → Store
    → Result (Answer × Store)
login cfg lib is_decoy email password now st =
    let u = user_by_email email st.users in
    check_password lib (hash_of u) password >>= λ password_ok.
    ok (touched (is_decoy email) u (login_of cfg now st password_ok u))

-- `_refuse_code`
abbrev pub refuse_code : Settings → User → String → Time → Store → Answer × Store
refuse_code cfg u detail now st =
    let (u', rows) = register_failure cfg now (u, st.audits) in
    (bad_code, with_user (u', audit (some u.id) "mfa_failed" (some detail) now rows) st)

abbrev pub admitted : String → User → Time → Store → Answer × Store
admitted how u now st = (
  access u.id u.totp_confirmed_at,
  with_user (register_success now u, audit (some u.id) "login_ok" (some how) now st.audits) st,
)

abbrev pub by_backup_code : Settings → User → Time → Store → Bool × List BackupCode → Answer × Store
by_backup_code cfg u now st (true, codes) =
    admitted "backup_code" u now (record st { codes = codes })
by_backup_code cfg u now st (false, codes) =
    refuse_code cfg u "wrong, expired or reused code" now st

abbrev pub by_totp :
    Settings → Libraries → String → Time → Store → Bool × User → Result (Answer × Store)
by_totp cfg lib entered now st (true, u) = ok (admitted "totp" u now st)
by_totp cfg lib entered now st (false, u) =
    use_backup_code lib u.id entered now st.codes >>= λ r. ok (by_backup_code cfg u now st r)

-- `mfa_verify`, of the user of the mfa token
unfoldable pub mfa_verify :
    Settings → Libraries → User → String → Time → Store → Result (Answer × Store)
mfa_verify cfg lib u entered now st =
    if not (is_some u.totp_confirmed_at)
    then ok (not_linked, st)
    else if is_locked u now
    then ok (
      bad_code,
      record st { audits = audit (some u.id) "mfa_failed" (some "locked") now st.audits },
    )
    else (verify_totp lib u entered now >>= λ r. by_totp cfg lib entered now st r)

abbrev pub spent : SetupToken → Time → List SetupToken → List SetupToken
spent link now links =
    map (λ t. if str_eq t.token_hash link.token_hash then record t { used_at = some now } else t)
      links

-- a link always has its user, by its foreign key
abbrev pub set_password : (hash : String) → SetupToken → Time → Store → Option User → Answer × Store
set_password hash link now st none = (bad_link, st)
set_password hash link now st (some u) = if not u.is_active then (bad_link, st) else (
  challenge u.id (is_some u.totp_confirmed_at),
  record st {
    users = put_user (record u { password_hash = some hash }) st.users;
    links = spent link now st.links;
    audits = audit (some u.id) "setup_completed" none now st.audits;
  },
)

-- `setup`; `hashed` is the bcrypt hash of the password
unfoldable pub setup :
    Libraries → (hashed : String → String) → (raw password : String) → Time → Store → Answer × Store
setup lib hashed raw password now st = elim (find_setup_token lib raw now st.links) [
  | none ↦ (
    bad_link,
    record st {
      audits = audit none "setup_failed" (some "invalid, used or expired link") now st.audits;
    },
  )
  | some link ↦ elim (password_problem password) [
    | some p ↦ (bad_password, st)
    | none ↦ set_password (hashed password) link now st (first (λ u. u.id == link.user_id) st.users)
  ]
]
