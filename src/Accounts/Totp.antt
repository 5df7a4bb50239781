-- ===== src/Accounts/Totp.antt =====
-- backend/app/utils/totp.py: `verify`. HMAC, base32 and the clock are the standard library's: the
-- code of a secret at a step is the argument `code_at_step`.
use erp_iot.Base.{
  ℕ, ◌+◌, ◌-◌, ◌/◌, String, Bool, true, not, ◌&&◌, Option, none, some, List, [], ◌∷◌, ltb, leb, ltb,
  ◌==◌, if◌then◌else◌, str_eq,
}
use erp_iot.Base.Text.{strip, replace_char}
use erp_iot.Base.Time.{Time, seconds}
use Prim.Native.Char.{code}
use erp_iot.Cabinet.SessionPayload.Results.{Result, ok, raise, type_error}

abbrev pub step_seconds : ℕ
step_seconds = 30

abbrev pub digits : ℕ
digits = 6

abbrev pub window : ℕ
window = 1

-- the code of a secret at a step, `hotp(_key(secret), step)`
abbrev pub CodeAt : Type 0
CodeAt = String → ℕ → String

-- `step_at`, of microseconds
unfoldable pub step_at : Time → ℕ
step_at t = t / seconds step_seconds

abbrev chars : String → ℕ
chars String.[] = 0
chars (String.◌∷◌ c s) = chars s + 1

-- `isdigit`, of the decimal digits of ASCII
-- every character passes the test
abbrev every : (ℕ → Bool) → String → Bool
every p String.[] = true
every p (String.◌∷◌ c s) = p (code c) && every p s

-- the code as it is compared
unfoldable pub cleaned : String → String
cleaned s = replace_char b' ' "" (strip s)

-- `is_digit` is `str.isdigit` of one character; it holds of more than the ten of ASCII
abbrev pub is_code : (is_digit : ℕ → Bool) → String → Bool
is_code is_digit s = chars s == digits && every is_digit s

-- `hmac.compare_digest` takes texts of ASCII only
abbrev pub is_ascii : String → Bool
is_ascii s = every (λ c. ltb c 128) s

-- the steps of the window, the earliest first
abbrev pub candidates : ℕ → List ℕ
candidates now = (now - window) ∷ now ∷ (now + window) ∷ []

-- the loop of `verify`: every candidate is compared, the first hit counts
abbrev pub first_hit : CodeAt → String → String → List ℕ → Option ℕ
first_hit codes secret entered [] = none
first_hit codes secret entered (step ∷ steps) =
    if str_eq (codes secret step) entered then some step else first_hit codes secret entered steps

-- a step at or before the last one never matches
abbrev pub unless_used : Option ℕ → Option ℕ → Option ℕ
unless_used last none = none
unless_used none (some step) = some step
unless_used (some last) (some step) = if leb step last then none else some step

-- `verify`: the step that the code matches
unfoldable pub verify :
    (ℕ → Bool) → CodeAt → String → String → (last_step : Option ℕ) → Time → Result (Option ℕ)
verify is_digit codes secret entered last_step now =
    let c = cleaned entered in
    if not (is_code is_digit c)
    then ok none
    else if not (is_ascii c)
    then raise type_error
    else ok (unless_used last_step (first_hit codes secret c (candidates (step_at now))))
