-- ===== src/Cabinets/Compared.antt =====
-- backend/app/services/cabinets.py: `in_sync` is said only of two sides that agree.
use Prim.Native.Nat.{Ordering}
use Prim.Native.String.{compare}
use erp_iot.Base.{
  ◌⊎◌, ℕ, String, ◌≡◌, refl, inl, inr, Bool, true, false, not, ◌&&◌, ◌||◌, List, [], ◌∷◌, ◌++◌, all,
  select, if◌then◌else◌, All, Bool-cases, arith, is_some, first, str_eq, eq_iff, subst,
}
use erp_iot.Base.Json.{sorted, mentions, insert_sorted}
use erp_iot.Cabinets.{
  Store, in_sync, Claim, erp_claims, cabinet_claims, is_claimed, named, differs, all_names,
  divergent_names, comparison, compared, names_of, state_of,
}

-- every claim of the first stands in the second
abbrev pub IsWithin : (ours theirs : List Claim) → Type 0
IsWithin ours theirs = All (λ c. is_claimed theirs c ≡ true) ours

either : (a b : Bool) → (a || b) ≡ true → (a ≡ true) ⊎ (b ≡ true)
either true b h = inl refl
either false b h = inr h

or_right : (a : Bool) {b : Bool} → b ≡ true → (a || b) ≡ true
or_right true h = refl
or_right false h = h

or_left : {a : Bool} (b : Bool) → a ≡ true → (a || b) ≡ true
or_left b h = rw h refl

behind_first :
    (n s t : String) (ss inserted : List String)
    → mentions n (s ∷ t ∷ ss) ≡ true
    → (mentions n (s ∷ ss) ≡ true → mentions n inserted ≡ true)
    → mentions n (t ∷ inserted) ≡ true
behind_first n s t ss inserted h ih = elim (either (str_eq s n) (mentions n (t ∷ ss)) h) [
  | inl e ↦ or_right (str_eq t n) (ih (or_left _ e))
  | inr e ↦ elim (either (str_eq t n) (mentions n ss) e) [
    | inl e' ↦ or_left _ e'
    | inr e' ↦ or_right (str_eq t n) (ih (or_right (str_eq s n) e'))
  ]
]

placed :
    (o : Ordering) (n s t : String) (ss inserted : List String)
    → mentions n (s ∷ t ∷ ss) ≡ true
    → (mentions n (s ∷ ss) ≡ true → mentions n inserted ≡ true)
    → mentions n (elim o [ Ordering.gt ↦ t ∷ inserted | _ ↦ s ∷ t ∷ ss ]) ≡ true
placed Ordering.lt n s t ss inserted h ih = h
placed Ordering.eq n s t ss inserted h ih = h
placed Ordering.gt n s t ss inserted h ih = behind_first n s t ss inserted h ih

insert_sorted-mentions :
    (n s : String) (ss : List String)
    → mentions n (s ∷ ss) ≡ true
    → mentions n (insert_sorted s ss) ≡ true
insert_sorted-mentions n s [] h = h
insert_sorted-mentions n s (t ∷ ss) h =
    placed (compare s t) n s t ss (insert_sorted s ss) h (insert_sorted-mentions n s ss)

sorted-mentions :
    (n : String) (ss : List String) → mentions n ss ≡ true → mentions n (sorted ss) ≡ true
sorted-mentions n [] h = h
sorted-mentions n (s ∷ ss) h =
    insert_sorted-mentions n s (sorted ss) (elim (either (str_eq s n) (mentions n ss) h) [
      | inl e ↦ or_left _ e
      | inr e ↦ or_right (str_eq s n) (sorted-mentions n ss e)
    ])

-- a name that is selected by no test fails it
select-none :
    (p : String → Bool) (n : String) (names : List String)
    → select p names ≡ []
    → mentions n names ≡ true
    → p n ≡ false
select-none p n [] e h = ground (arith, h)
select-none p n (m ∷ names) e h = elim (Bool-cases (p m)) [
  | inl t ↦ ground (arith, e, t)
  | inr f ↦ elim (either (str_eq m n) (mentions n names) h) [
    | inl same ↦ subst (λ x. p x ≡ false) ((eq_iff m n).0 same) f
    | inr there ↦ select-none p n names (ground (arith, e, f)) there
  ]
]

names_of-keeps :
    (n : String) (c : Claim) (claims : List Claim)
    → mentions n (names_of claims) ≡ true
    → mentions n (names_of (c ∷ claims)) ≡ true
names_of-keeps n c claims h = elim (Bool-cases (mentions c.0 (names_of claims))) [
  | inl t ↦ rw t h
  | inr f ↦ rw f (or_right (str_eq c.0 n) h)
]

names_of-has : (c : Claim) (claims : List Claim) → mentions c.0 (names_of (c ∷ claims)) ≡ true
names_of-has c claims = elim (Bool-cases (mentions c.0 (names_of claims))) [
  | inl t ↦ rw t t
  | inr f ↦ rw f (or_left _ ((eq_iff c.0 c.0).1 refl))
]

-- Each claim of a list that is a part of another is named there.
names_of-append :
    (n : String) (xs ys : List Claim)
    → mentions n (names_of ys) ≡ true
    → mentions n (names_of (xs ++ ys)) ≡ true
names_of-append n [] ys h = h
names_of-append n (x ∷ xs) ys h = names_of-keeps n x (xs ++ ys) (names_of-append n xs ys h)

abbrev AllNamed : (names : List Claim) → List Claim → Type 0
AllNamed names claims = All (λ c. mentions c.0 (names_of names) ≡ true) claims

All-implies {ℓ κ μ} :
    {A : Type ℓ} {P : A → Type κ} {Q : A → Type μ} (xs : List A)
    → ((x : A) → P x → Q x)
    → All P xs
    → All Q xs
All-implies [] f h = tt
All-implies (x ∷ xs) f (k, h) = (f x k, All-implies xs f h)

first_named : (xs ys : List Claim) → AllNamed (xs ++ ys) xs
first_named [] ys = tt
first_named (x ∷ xs) ys = (
  names_of-has x (xs ++ ys),
  All-implies xs (λ c h. names_of-keeps c.0 x (xs ++ ys) h) (first_named xs ys),
)

self_named : (ys : List Claim) → AllNamed ys ys
self_named [] = tt
self_named (y ∷ ys) =
    (names_of-has y ys, All-implies ys (λ c h. names_of-keeps c.0 y ys h) (self_named ys))

second_named : (xs ys : List Claim) → AllNamed (xs ++ ys) ys
second_named xs ys = All-implies ys (λ c h. names_of-append c.0 xs ys h) (self_named ys)

and_true : (a b : Bool) → (a && b) ≡ true → (a ≡ true) × (b ≡ true)
and_true true b h = (refl, h)
and_true false b h = ground (arith, h)

-- what holds of the claims of each name holds of all
named-All :
    (p : Claim → Bool) (xs : List Claim)
    → All (λ c. all p (named c.0 xs) ≡ true) xs
    → All (λ c. p c ≡ true) xs
named-All p [] h = tt
named-All p (x ∷ xs) (k, h) =
    let here = and_true (p x) (all p (named x.0 xs)) (
      subst (λ b. all p (if b then x ∷ named x.0 xs else named x.0 xs) ≡ true)
        ((eq_iff x.0 x.0).1 refl) k) in
    (here.0, named-All p xs (All-implies xs (λ c e. rest c e (Bool-cases (str_eq x.0 c.0))) h))
  where
    rest :
        (c : Claim)
        → all p (named c.0 (x ∷ xs)) ≡ true
        → ((str_eq x.0 c.0 ≡ true) ⊎ (str_eq x.0 c.0 ≡ false))
        → all p (named c.0 xs) ≡ true
    rest c e (inl t) = ground (arith, e, t)
    rest c e (inr f) = ground (arith, e, f)

module _ (ours theirs : List Claim) (none_differ : divergent_names ours theirs ≡ []) where
  agree :
      (n : String)
      → mentions n (names_of (ours ++ theirs)) ≡ true
      → (all (is_claimed theirs) (named n ours) ≡ true)
        × (all (is_claimed ours) (named n theirs) ≡ true)
  agree n h = and_true _ _ (
      of_negated _ (
        select-none (differs ours theirs) n (all_names ours theirs) none_differ
          (sorted-mentions n (names_of (ours ++ theirs)) h)))
    where
      of_negated : (a : Bool) → not a ≡ false → a ≡ true
      of_negated true h = refl
      of_negated false h = ground (arith, h)

  both_sides : IsWithin ours theirs × IsWithin theirs ours
  both_sides = (
    named-All (is_claimed theirs) ours
        (All-implies ours (λ c h. (agree c.0 h).0) (first_named ours theirs)),
    named-All (is_claimed ours) theirs
        (All-implies theirs (λ c h. (agree c.0 h).1) (second_named ours theirs)),
  )

state_of-none : (names : List String) → state_of names ≡ in_sync → names ≡ []
state_of-none [] h = refl
state_of-none (n ∷ names) h = ground (arith, h)

compared-agree :
    (ours theirs : List Claim)
    → (compared ours theirs).0 ≡ in_sync
    → (is_some (first (λ c. true) theirs) ≡ true) × IsWithin ours theirs × IsWithin theirs ours
compared-agree ours [] h = ground (arith, h)
compared-agree ours (c ∷ theirs) h =
    let (within, back) = both_sides ours (c ∷ theirs) (state_of-none _ h) in (refl, within, back)

-- The verdict is `in_sync` only where the cabinet has claimed something, each assignment of the ERP
-- stands among its claims, and each of its claims stands among the assignments.
pub comparison-agree :
    (db : Store) (cabinet : ℕ)
    → (comparison db cabinet).0 ≡ in_sync
    → (is_some (first (λ c. true) (cabinet_claims db cabinet)) ≡ true)
      × IsWithin (erp_claims db cabinet) (cabinet_claims db cabinet)
      × IsWithin (cabinet_claims db cabinet) (erp_claims db cabinet)
unfolding comparison
comparison-agree db cabinet h = compared-agree (erp_claims db cabinet) (cabinet_claims db cabinet) h
