-- ===== src/Base/Text.antt =====
-- Texts: containment, the first characters, printed numbers.
use Prim.Native.Nat.{ℕ, zero, suc, ◌/◌, ◌%◌}
use Prim.Native.String.{String}
use Prim.Native.String.{◌++◌ as ◌<>◌}
use Prim.Native.Char.{Char, code}
use mathlib.Core.Bool.{Bool, true, false, ◌&&◌, ◌||◌}
use mathlib.Core.Option.{Option, none, some}
use mathlib.Core.Path.{◌≡◌, refl}
use mathlib.Core.List.{List, [], ◌∷◌}
use text.Mathlib.Text.{find?}
use erp_iot.Base.Tests.{◌==◌, leb, if◌then◌else◌}
use erp_iot.Base.Int.{ℤ, pos, negsuc}

-- `part in s`
abbrev pub occurs : String → String → Bool
occurs part s = elim (find? s part) [ none ↦ false | some _ ↦ true ]

-- `s[:n]`
abbrev pub cut : ℕ → String → String
cut zero s = String.[]
cut (suc n) String.[] = String.[]
cut (suc n) (String.◌∷◌ c s) = String.◌∷◌ c (cut n s)

-- `s or ""`
abbrev pub or_blank : Option String → String
or_blank none = String.[]
or_blank (some s) = s

-- `str.isspace` of one character
abbrev pub is_space : ℕ → Bool
is_space c =
    leb 9 c && leb c 13
    || leb 28 c && leb c 32
    || c == 133
    || c == 160
    || c == 5760
    || leb 8192 c && leb c 8202
    || c == 8232
    || c == 8233
    || c == 8239
    || c == 8287
    || c == 12288

abbrev lstrip : String → String
lstrip String.[] = String.[]
lstrip (String.◌∷◌ c s) = elim (is_space (code c)) [ true ↦ lstrip s | false ↦ String.◌∷◌ c s ]

abbrev push_kept : Char → String → String
push_kept c String.[] = if is_space (code c) then String.[] else String.◌∷◌ c String.[]
push_kept c (String.◌∷◌ d s) = String.◌∷◌ c (String.◌∷◌ d s)

abbrev rstrip : String → String
rstrip String.[] = String.[]
rstrip (String.◌∷◌ c s) = push_kept c (rstrip s)

-- `s.strip()`
unfoldable pub strip : String → String
strip s = rstrip (lstrip s)

-- `s.replace(old, new)` for one character
abbrev pub replace_char : ℕ → String → String → String
replace_char old new String.[] = String.[]
replace_char old new (String.◌∷◌ c s) =
    (if code c == old then new else String.◌∷◌ c String.[]) <> replace_char old new s

strip_tests : (strip " a b " ≡ "a b") × (strip " \t" ≡ "")
unfolding strip
strip_tests = (refl, refl)

abbrev digit : ℕ → String
digit zero = "0"
digit (suc zero) = "1"
digit (suc (suc zero)) = "2"
digit (suc (suc (suc zero))) = "3"
digit (suc (suc (suc (suc zero)))) = "4"
digit (suc (suc (suc (suc (suc zero))))) = "5"
digit (suc (suc (suc (suc (suc (suc zero)))))) = "6"
digit (suc (suc (suc (suc (suc (suc (suc zero))))))) = "7"
digit (suc (suc (suc (suc (suc (suc (suc (suc zero)))))))) = "8"
digit _ = "9"

-- two decimal digits, as `%H` and `%M` print them
unfoldable pub two_digits : ℕ → String
two_digits n = digit (n / 10) <> digit (n % 10)

-- the digits of `n` before `rest`; `fuel` above `n` is enough, since `n` falls in every round
digits_before : (fuel n : ℕ) → String → String
digits_before zero n rest = rest
digits_before (suc fuel) n rest =
    let more = digits_before fuel (n / 10) (digit (n % 10) <> rest) in
    if n / 10 == 0 then digit n <> rest else more

-- `str(n)`
unfoldable pub text_of_int : ℤ → String
unfolding digits_before
text_of_int (pos n) = digits_before (suc n) n ""
text_of_int (negsuc n) = "-" <> digits_before (suc (suc n)) (suc n) ""

text_of_int_tests : (text_of_int (pos 120) ≡ "120") × (text_of_int (negsuc 6) ≡ "-7")
unfolding text_of_int
text_of_int_tests = (refl, refl)

-- every character is ASCII
abbrev pub is_ascii : String → Bool
is_ascii String.[] = true
is_ascii (String.◌∷◌ c s) = leb (code c) 127 && is_ascii s

abbrev onto_first : Char → List String → List String
onto_first c [] = String.◌∷◌ c String.[] ∷ []
onto_first c (s ∷ ss) = String.◌∷◌ c s ∷ ss

-- `s.split(sep)` for one character
abbrev pub split_on : ℕ → String → List String
split_on sep String.[] = String.[] ∷ []
split_on sep (String.◌∷◌ c s) =
    let rest = split_on sep s in if code c == sep then String.[] ∷ rest else onto_first c rest

split_on_test : split_on 44 "a,,bc" ≡ "a" ∷ "" ∷ "bc" ∷ []
split_on_test = refl
