-- ===== src/Tags/Forms.antt =====
-- A printed UID reads back, and its two byte orders are each other's reverse.
use erp_iot.Base.{
  ℕ, ◌≤◌, ◌≡◌, ◌≢◌, refl, sym, ap, ◌∙◌, subst, Bool, true, false, ◌&&◌, Option, none, some, List,
  [], ◌∷◌, ◌++◌, arith, if◌then◌else◌, All, some-injective,
}
use mathlib.Core.Option
use mathlib.Core.List.{reverse, reverse-cons, reverse-reverse}
use erp_iot.Tags.{
  Pair, Uid, upper, is_separator, compact, is_hex, pairs, unless_empty, normalise, print,
  reversed_form,
}

abbrev pub IsHexPair : Pair → Type 0
IsHexPair (c, d) = (is_hex c ≡ true) × (is_hex d ≡ true)

-- A normalised UID: hex pairs, at least one.
abbrev flat : Uid → List ℕ
flat [] = []
flat ((c, d) ∷ u) = c ∷ d ∷ flat u

hex_range : (c : ℕ) → is_hex c ≡ true → (48 ≤ c) × (c ≤ 70) × (c ≢ 58)
hex_range c h = ground arith

separator_range : (c : ℕ) → 48 ≤ c → c ≤ 70 → c ≢ 58 → is_separator c ≡ false
separator_range c l u n = ground arith

upper_range : (c : ℕ) → c ≤ 70 → upper c ≡ c
upper_range c u = ground arith

hex_kept : (c : ℕ) (cs : List ℕ) → is_hex c ≡ true → compact (c ∷ cs) ≡ c ∷ compact cs
hex_kept c cs h =
    let (l, u, n) = hex_range c h in rw (separator_range c l u n, upper_range c u) refl

colon_dropped : (cs : List ℕ) → compact (58 ∷ cs) ≡ compact cs
colon_dropped cs = refl

pair_kept : (c d : ℕ) (cs : List ℕ) → IsHexPair (c, d) → compact (c ∷ d ∷ cs) ≡ c ∷ d ∷ compact cs
pair_kept c d cs (hc, hd) = hex_kept c (d ∷ cs) hc ∙ ap (λ xs. c ∷ xs) (hex_kept d cs hd)

compact-print : (u : Uid) → All IsHexPair u → compact (print u) ≡ flat u
compact-print [] h = refl
compact-print ((c, d) ∷ []) (h, t) = pair_kept c d [] h
compact-print ((c, d) ∷ p ∷ u) (h, t) =
    pair_kept c d (58 ∷ print (p ∷ u)) h ∙ ap (λ xs. c ∷ d ∷ xs) (compact-print (p ∷ u) t)

pairs-flat : (u : Uid) → All IsHexPair u → pairs (flat u) ≡ some u
pairs-flat [] h = refl
pairs-flat ((c, d) ∷ u) ((hc, hd), t) = rw (hc, hd, pairs-flat u t) refl

-- The pairs that are read are hex.
pairs-IsHex : (cs : List ℕ) (u : Uid) → pairs cs ≡ some u → All IsHexPair u
pairs-IsHex [] u h = subst (All IsHexPair) (some-injective h) tt
pairs-IsHex (c ∷ []) u h = cc
pairs-IsHex (c ∷ d ∷ cs) u h =
    by_test (is_hex c) (is_hex d) refl refl (pairs cs) h (λ v e. pairs-IsHex cs v e)
  where
    by_test :
        (a b : Bool)
        → is_hex c ≡ a
        → is_hex d ≡ b
        → (rest : Option Uid)
        → (if a && b then Option.map (λ u. (c, d) ∷ u) rest else none) ≡ some u
        → ((v : Uid) → rest ≡ some v → All IsHexPair v)
        → All IsHexPair u
    by_test true true ea eb (some v) e ih =
        subst (All IsHexPair) (some-injective e) ((ea, eb), ih v refl)
    by_test true true ea eb none e ih = cc
    by_test true false ea eb rest e ih = cc
    by_test false b ea eb rest e ih = cc

-- A UID with at least one pair is read back from its own text.
print-read : (p : Pair) (u : Uid) → All IsHexPair (p ∷ u) → normalise (print (p ∷ u)) ≡ some (p ∷ u)
unfolding normalise
print-read (c, d) u h = ap unless_empty (compact-print ((c, d) ∷ u) h) ∙ pairs-flat ((c, d) ∷ u) h

-- What `normalise` gives: hex pairs, at least one.
pub record IsUid (u : Uid) : Type 0 where
  pub hex : All IsHexPair u
  pub nonempty : u ≢ []

pairs-nonempty : (c : ℕ) (cs : List ℕ) (u : Uid) → pairs (c ∷ cs) ≡ some u → u ≢ []
pairs-nonempty c [] u h e = cc
pairs-nonempty c (d ∷ cs) u h e = by_rest (is_hex c && is_hex d) (pairs cs) (h ∙ ap some e)
  where
    by_rest :
        (b : Bool) (rest : Option Uid)
        → ¬ ((if b then Option.map (λ u. (c, d) ∷ u) rest else none) ≡ some [])
    by_rest true (some v) g = cc
    by_rest true none g = cc
    by_rest false rest g = cc

unless_empty-IsUid : (cs : List ℕ) (u : Uid) → unless_empty cs ≡ some u → IsUid u
unless_empty-IsUid [] u h = cc
unless_empty-IsUid (c ∷ cs) u h = record {
  hex = pairs-IsHex (c ∷ cs) u h;
  nonempty = pairs-nonempty c cs u h;
}

pub normalise-IsUid : (text : List ℕ) (u : Uid) → normalise text ≡ some u → IsUid u
unfolding normalise
normalise-IsUid text u h = unless_empty-IsUid (compact text) u h

pub IsUid-read : (u : Uid) → IsUid u → normalise (print u) ≡ some u
IsUid-read [] h = absurd (h.nonempty refl)
IsUid-read (p ∷ u) h = print-read p u h.hex

-- A normalised UID is its own normal form: what `normalise` makes of a text in any spelling reads
-- back unchanged.
pub normalise-print :
    (text : List ℕ) (u : Uid) → normalise text ≡ some u → normalise (print u) ≡ some u
normalise-print text u h = IsUid-read u (normalise-IsUid text u h)

All-append : (u v : Uid) → All IsHexPair u → All IsHexPair v → All IsHexPair (u ++ v)
All-append [] v h k = k
All-append (p ∷ u) v (h, hs) k = (h, All-append u v hs k)

All-reverse : (u : Uid) → All IsHexPair u → All IsHexPair (reverse u)
All-reverse [] h = tt
All-reverse (p ∷ u) (h, hs) =
    subst (All IsHexPair) (sym (reverse-cons p u))
      (All-append (reverse u) (p ∷ []) (All-reverse u hs) (h, tt))

pub reverse-IsUid : (u : Uid) → IsUid u → IsUid (reverse u)
reverse-IsUid u h = record {
  hex = All-reverse u h.hex;
  nonempty = λ e. h.nonempty (sym (reverse-reverse u) ∙ ap reverse e);
}

-- Reversing twice gives the normal form back, through the printed text.
pub reversed_form-twice :
    (text : List ℕ) (u : Uid)
    → normalise text ≡ some u
    → (reversed_form text ≡ some (reverse u)) × (reversed_form (print (reverse u)) ≡ some u)
unfolding reversed_form
reversed_form-twice text u h =
    let i = reverse-IsUid u (normalise-IsUid text u h) in
    (
      ap (Option.map reverse) h,
      ap (Option.map reverse) (IsUid-read (reverse u) i) ∙ ap some (reverse-reverse u),
    )
