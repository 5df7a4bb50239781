-- ===== src/Accounts/SignIn/Refusals.antt =====
-- Who passes the password step, and that its refusals look alike.
use erp_iot.Base.{
  ◌≡◌, ◌⊎◌, inl, inr, refl, sym, subst, ap, ◌∙◌, Bool-cases, String, Bool, true, false, Option,
  none, some, is_some,
}
use erp_iot.Base.Time.{Time}
use erp_iot.Cabinet.SessionPayload.Results.{Result, ok, raise, value_error, ◌>>=◌}
use erp_iot.Accounts.{User, Settings, Libraries, check_password, is_locked}
use erp_iot.Accounts.SignIn.{
  Store, Answer, challenge, bad_login, reason, answer_login, refusal, login_of, user_by_email,
  touched, login, hash_of,
}

-- The account behind a challenge.
pub record IsPassed (lib : Libraries) (password : String) (now : Time) (u : User) : Type 0 where
  pub verified : check_password lib u.password_hash password ≡ ok true
  pub is_unlocked : is_locked u now ≡ false
  pub active : u.is_active ≡ true

-- Four tests, of which none refuses.
tests_passed : (a b c d : Bool) → reason a b c d ≡ none → (b ≡ false) × (c ≡ true) × (d ≡ true)
tests_passed true false true true h = (refl, refl, refl)
tests_passed true false true false h = cc
tests_passed true false false d h = cc
tests_passed true true c d h = cc
tests_passed false b c d h = cc

touched-answer : (b : Bool) (u : Option User) (r : Answer × Store) → (touched b u r).0 ≡ r.0
touched-answer true none r = refl
touched-answer true (some u) r = refl
touched-answer false u r = refl

-- What the answer of the password step can be.
abbrev pub IsAnswered : Libraries → String → Time → Option User → Answer → Type 0
IsAnswered lib password now found a =
    (a ≡ bad_login)
    ⊎ ((u : User) × (found ≡ some u)
        × (a ≡ challenge u.id (is_some u.totp_confirmed_at))
        × IsPassed lib password now u)

-- An exception for every address, or an answer for every address.
abbrev pub IsUniform : Libraries → String → Time → Option User → Result (Answer × Store) → Type 0
IsUniform lib password now found r =
    ((lib.takes password ≡ false) × (r ≡ raise value_error))
    ⊎ ((lib.takes password ≡ true)
        × (a : Answer) × (st : Store) × (r ≡ ok (a, st))
        × IsAnswered lib password now found a)

answer_login-IsAnswered :
    (cfg : Settings) (lib : Libraries) (password : String) (now : Time) (st : Store) (u : User)
    (password_ok : Bool) (r : Option String)
    → check_password lib u.password_hash password ≡ ok password_ok
    → refusal now u password_ok ≡ r
    → IsAnswered lib password now (some u) (answer_login cfg now st u password_ok r).0
answer_login-IsAnswered cfg lib password now st u password_ok (some r) checked e = inl refl
answer_login-IsAnswered cfg lib password now st u password_ok none checked e =
    let (b, c, d) =
      tests_passed (is_some u.password_hash) (is_locked u now) password_ok u.is_active e in
    inr
      (u, refl, refl, record { verified = checked ∙ ap (λ x. ok x) c; is_unlocked = b; active = d })

login_of-IsAnswered :
    (cfg : Settings) (lib : Libraries) (password : String) (now : Time) (st : Store)
    (password_ok : Bool) (found : Option User)
    → check_password lib (hash_of found) password ≡ ok password_ok
    → IsAnswered lib password now found (login_of cfg now st password_ok found).0
login_of-IsAnswered cfg lib password now st password_ok none e = inl refl
login_of-IsAnswered cfg lib password now st password_ok (some u) e =
    answer_login-IsAnswered cfg lib password now st u password_ok (refusal now u password_ok) e refl

-- bcrypt's check raises or returns by the password alone, and the dummy hash makes it so for an
-- address without a hash
check_password_cases :
    (lib : Libraries) (hash : Option String) (password : String)
    → ((lib.takes password ≡ false) × (check_password lib hash password ≡ raise value_error))
      ⊎ ((lib.takes password ≡ true) × (b : Bool) × (check_password lib hash password ≡ ok b))
unfolding check_password
check_password_cases lib none password = elim (Bool-cases (lib.takes password)) [
  | inl e ↦ rw e (inr (refl, false, refl))
  | inr e ↦ rw e (inl (refl, refl))
]
check_password_cases lib (some hash) password = elim (Bool-cases (lib.takes password)) [
  | inl e ↦ rw e (inr (refl, lib.verify_hash password hash, refl))
  | inr e ↦ rw e (inl (refl, refl))
]

-- The password step tells no address from another. On a password that bcrypt's check raises on, it
-- ends in that exception, whether the address is known or not and whatever the account is. On any
-- other it has two answers only: the challenge of the account with that address, and then the
-- password is right, the account is active and not locked; or one and the same 401, whether the
-- address is unknown, the password missing or wrong, or the account locked or disabled.
pub login-IsUniform :
    (cfg : Settings) (lib : Libraries) (is_decoy : String → Bool) (email password : String)
    (now : Time) (st : Store)
    → IsUniform lib password now
        (user_by_email email st.users)
        (login cfg lib is_decoy email password now st)
unfolding login
login-IsUniform cfg lib is_decoy email password now st =
    let found = user_by_email email st.users in
    elim (check_password_cases lib (hash_of found) password) [
      | inl (t, e) ↦ inl (t, ap (λ r. r >>= λ b. ok (step b)) e)
      | inr (t, b, e) ↦ inr (
        t,
        (step b).0,
        (step b).1,
        ap (λ r. r >>= λ b. ok (step b)) e,
        subst (IsAnswered lib password now found)
            (sym (touched-answer (is_decoy email) found (login_of cfg now st b found)))
            (login_of-IsAnswered cfg lib password now st b found e),
      )
    ]
  where
    step : Bool → Answer × Store
    step b =
        touched (is_decoy email) (user_by_email email st.users)
          (login_of cfg now st b (user_by_email email st.users))
