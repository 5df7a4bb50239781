-- ===== src/Cabinet/SessionPayload/Results.antt =====
-- How `parse_session` can end: a value, or a Python exception. `payload_error` is `PayloadError`.
use erp_iot.Base.{◌≡◌, refl, ap, String, Option, none, some, List, [], ◌∷◌}
use mathlib.Core.Path.{subst}

pub data Problem : Type 0 where
  not_an_object bad_session_type bad_outlet outlet_mismatch : Problem
  keys_missing : List String → Problem
  not_a_number : String → Problem

pub data Exception : Type 0 where
  payload_error : Problem → Exception
  type_error value_error key_error attribute_error : Exception

pub data Result {ℓ} (V : Type ℓ) : Type ℓ where
  raise : Exception → Result V
  ok : V → Result V

abbrev pub or_raise {ℓ} : {V : Type ℓ} → Option V → Exception → Result V
or_raise (some v) e = ok v
or_raise none e = raise e

-- the statements behind a call run only where it returns
infixl 5 ◌>>=◌ ◌>>◌
abbrev pub ◌>>=◌ {κ ℓ} : {V : Type κ} {W : Type ℓ} → Result V → (V → Result W) → Result W
raise e >>= rest = raise e
ok v >>= rest = rest v

abbrev pub ◌>>◌ {κ} : {W : Type κ} → Result (Unit {0}) → Result W → Result W
test >> rest = test >>= λ _. rest

-- `if missing: raise PayloadError(…)`
abbrev pub guard_empty : List String → Result (Unit {0})
guard_empty [] = ok tt
guard_empty (k ∷ ks) = raise (payload_error (keys_missing (k ∷ ks)))

abbrev ok_value {ℓ} : {A : Type ℓ} → A → Result A → A
ok_value d (ok a) = a
ok_value d (raise e) = d

pub ok-injective {ℓ} : {A : Type ℓ} {a b : A} → Path (Result A) (ok a) (ok b) → a ≡ b
ok-injective {a = a} e = ap (ok_value a) e

-- A postcondition of a result: a raised exception meets every one.
pub data Ensures {ℓ κ} {A : Type ℓ} (P : A → Type κ) : Result A → Type (ℓ ⊔ κ) where
  returned : {a : A} → P a → Ensures P (ok a)
  raised : {e : Exception} → Ensures P (raise e)

pub Ensures-elim {ℓ κ} :
    {A : Type ℓ} {P : A → Type κ} {r : Result A} {a : A} → Ensures P r → r ≡ ok a → P a
Ensures-elim {P = P} (returned h) e = subst P (ok-injective e) h
Ensures-elim raised e = cc

pub >>=-Ensures {ℓ κ μ} :
    {A : Type ℓ} {B : Type μ} {P : A → Type κ} (m : Result B) (f : B → Result A)
    → ((b : B) → m ≡ ok b → Ensures P (f b))
    → Ensures P (m >>= f)
>>=-Ensures (ok b) f h = h b refl
>>=-Ensures (raise e) f h = raised
