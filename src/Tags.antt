-- ===== src/Tags.antt =====
-- backend/app/cabinet/nfc_uid.py and backend/app/services/nfc_tags.py: UIDs of NFC tags, the import
-- and the look-up. A text is the list of its character codes, of ASCII; a normalised UID is the
-- list of its pairs of hex digits, which `print` joins by colons.
use erp_iot.Base.{
  ℕ, suc, ◌+◌, ◌-◌, String, Bool, true, false, not, ◌&&◌, ◌||◌, Option, none, some, List, [], ◌∷◌,
  ◌++◌, first, map, any, all, is_some, leb, ◌==◌, if◌then◌else◌, str_eq,
}
use mathlib.Core.Option
use mathlib.Core.List.{reverse}
use erp_iot.Base.Text.{is_space}
pub mod Forms
pub mod Lookup
pub mod Import
mod Tests

abbrev pub Pair : Type 0
Pair = ℕ × ℕ

abbrev pub Uid : Type 0
Uid = List Pair

abbrev pub upper : ℕ → ℕ
upper c = if leb 97 c && leb c 122 then c - 32 else c

-- `[\s:\-]`
abbrev pub is_separator : ℕ → Bool
is_separator c = is_space c || c == 58 || c == 45

-- the sub of `normalise`
abbrev pub compact : List ℕ → List ℕ
compact [] = []
compact (c ∷ cs) = if is_separator c then compact cs else upper c ∷ compact cs

abbrev pub is_hex : ℕ → Bool
is_hex c = leb 48 c && leb c 57 || leb 65 c && leb c 70

-- the pairs, or the UidError of an odd length or of a pair that is not hex
abbrev pub pairs : List ℕ → Option Uid
pairs [] = some []
pairs (c ∷ []) = none
pairs (c ∷ d ∷ cs) = if is_hex c && is_hex d then Option.map (λ u. (c, d) ∷ u) (pairs cs) else none

abbrev pub unless_empty : List ℕ → Option Uid
unless_empty [] = none
unless_empty (c ∷ cs) = pairs (c ∷ cs)

-- `normalise`; `none` is UidError
unfoldable pub normalise : List ℕ → Option Uid
normalise uid = unless_empty (compact uid)

-- the text of a normalised UID
abbrev pub print : Uid → List ℕ
print [] = []
print ((c, d) ∷ []) = c ∷ d ∷ []
print ((c, d) ∷ p ∷ u) = c ∷ d ∷ 58 ∷ print (p ∷ u)

-- `reversed_form`
unfoldable pub reversed_form : List ℕ → Option Uid
reversed_form uid = Option.map reverse (normalise uid)

-- `both_forms`, which reverses the normalised text
abbrev pub with_reversed : Uid → Option (Uid × Uid)
with_reversed n = Option.map (λ r. (n, r)) (reversed_form (print n))

unfoldable pub both_forms : List ℕ → Option (Uid × Uid)
both_forms uid = elim (normalise uid) [ none ↦ none | some n ↦ with_reversed n ]

-- equality of two UIDs
abbrev pub same_uid : Uid → Uid → Bool
same_uid [] [] = true
same_uid ((a, b) ∷ u) ((c, d) ∷ v) = a == c && b == d && same_uid u v
same_uid _ _ = false

pub record Tag : Type 0 where
  pub outlet_id : ℕ
  pub uid_primary : Uid
  pub uid_reversed : Uid
  pub is_active : Bool

-- `lookup`, to the tag whose outlet it answers
abbrev pub carries : Uid → Tag → Bool
carries s t = t.is_active && (same_uid t.uid_primary s || same_uid t.uid_reversed s)

unfoldable pub lookup : List ℕ → List Tag → Option (Option Tag)
lookup scanned tags = Option.map (λ s. first (carries s) tags) (normalise scanned)
