-- ===== src/Agent/Reported.antt =====
-- backend/app/agent/rules.py: no touch of a decoy is lost.
use erp_iot.Base.{
  ◌⊎◌, ℕ, ◌≡◌, refl, inl, inr, Bool, true, false, ◌||◌, none, some, List, [], ◌∷◌, ◌++◌, All,
  Bool-cases, any, map, ◌==◌, ==_iff, arith,
}
use erp_iot.Base.Time.{Time}
use erp_iot.Agent.Tables.{DecoyHit, Store}
use erp_iot.Agent.{World, Finding, collect, sorted_ids, insert_id}
use erp_iot.Agent.SignIns.{
  appended, grouped_onto, DecoyCase, same_case, decoy_case, decoys_in, decoy_finding, decoy_touch,
  hit_id,
}

-- the row stands in the evidence of the finding
abbrev pub has_row : ℕ → Finding → Bool
has_row id f = any (λ e. any (λ n. n == id) e.row_ids) f.evidence

abbrev pub has_hit : ℕ → DecoyCase × List DecoyHit → Bool
has_hit id (k, hits) = any (λ h. h.id == id) hits

-- one of two holds
either : (a b : Bool) → (a || b) ≡ true → (a ≡ true) ⊎ (b ≡ true)
either true b h = inl refl
either false b h = inr h

or_right : (a : Bool) {b : Bool} → b ≡ true → (a || b) ≡ true
or_right true h = refl
or_right false h = h

or_left : {a : Bool} (b : Bool) → a ≡ true → (a || b) ≡ true
or_left b h = rw h refl

module _ {ℓ} {A : Type ℓ} (p : A → Bool) where
  any-append : (xs ys : List A) → any p xs ≡ true → any p (xs ++ ys) ≡ true
  any-append [] ys h = ground arith
  any-append (x ∷ xs) ys h = elim (either (p x) (any p xs) h) [
    | inl e ↦ or_left _ e
    | inr e ↦ or_right (p x) (any-append xs ys e)
  ]

  any-last : (xs : List A) (x : A) → p x ≡ true → any p (xs ++ x ∷ []) ≡ true
  any-last [] x h = or_left false h
  any-last (y ∷ xs) x h = or_right (p y) (any-last xs x h)

insert_id-has :
    (id n : ℕ) (ns : List ℕ)
    → any (λ m. m == id) (n ∷ ns) ≡ true
    → any (λ m. m == id) (insert_id n ns) ≡ true
insert_id-has id n [] h = h
insert_id-has id n (m ∷ ms) h = let ih = insert_id-has id n ms in ground (arith, h, ih)

sorted_ids-has :
    (id : ℕ) (ns : List ℕ)
    → any (λ m. m == id) ns ≡ true
    → any (λ m. m == id) (sorted_ids ns) ≡ true
sorted_ids-has id [] h = h
sorted_ids-has id (n ∷ ns) h =
    insert_id-has id n (sorted_ids ns) (elim (either (n == id) (any (λ m. m == id) ns) h) [
      | inl e ↦ or_left _ e
      | inr e ↦ or_right (n == id) (sorted_ids-has id ns e)
    ])

ids-has :
    (id : ℕ) (hits : List DecoyHit)
    → any (λ h. h.id == id) hits ≡ true
    → any (λ n. n == id) (map hit_id hits) ≡ true
ids-has id [] h = h
ids-has id (x ∷ hits) h = elim (either (x.id == id) _ h) [
  | inl e ↦ or_left _ e
  | inr e ↦ or_right (x.id == id) (ids-has id hits e)
]

module _ (id : ℕ) where
  appended-keeps :
      (k : DecoyCase) (x : DecoyHit) (groups : List (DecoyCase × List DecoyHit))
      → any (has_hit id) groups ≡ true
      → any (has_hit id) (appended same_case k x groups) ≡ true
  appended-keeps k x [] h = ground (arith, h)
  appended-keeps k x ((j, xs) ∷ groups) h = elim (Bool-cases (same_case j k)) [
    | inl s ↦ elim (either (has_hit id (j, xs)) _ h) [
      | inl e ↦ rw s (or_left _ (any-append (λ y. y.id == id) xs (x ∷ []) e))
      | inr e ↦ rw s (or_right _ e)
    ]
    | inr s ↦ elim (either (has_hit id (j, xs)) _ h) [
      | inl e ↦ rw s (or_left _ e)
      | inr e ↦ rw s (or_right _ (appended-keeps k x groups e))
    ]
  ]

  appended-has :
      (k : DecoyCase) (x : DecoyHit) (groups : List (DecoyCase × List DecoyHit))
      → x.id ≡ id
      → any (has_hit id) (appended same_case k x groups) ≡ true
  appended-has k x [] h = or_left false (or_left false ((==_iff x.id id).1 h))
  appended-has k x ((j, xs) ∷ groups) h = elim (Bool-cases (same_case j k)) [
    | inl s ↦ rw s (or_left _ (any-last (λ y. y.id == id) xs x ((==_iff x.id id).1 h)))
    | inr s ↦ rw s (or_right _ (appended-has k x groups h))
  ]

  grouped_onto-keeps :
      (key : DecoyHit → DecoyCase) (hits : List DecoyHit)
      (groups : List (DecoyCase × List DecoyHit))
      → any (has_hit id) groups ≡ true
      → any (has_hit id) (grouped_onto same_case key hits groups) ≡ true
  grouped_onto-keeps key [] groups h = h
  grouped_onto-keeps key (x ∷ hits) groups h =
      grouped_onto-keeps key hits _ (appended-keeps (key x) x groups h)

  row-kept :
      (w : World) (g : DecoyCase × List DecoyHit) (rest : List Finding)
      → has_hit id g ≡ true
      → any (has_row id) (elim (decoy_finding w g) [ none ↦ rest | some f ↦ f ∷ rest ]) ≡ true
  row-kept w (k, []) rest h = ground (arith, h)
  row-kept w (k, x ∷ hits) rest h =
      or_left _
        (or_left false (sorted_ids-has id (hit_id x ∷ map hit_id hits) (ids-has id (x ∷ hits) h)))

  rest-kept :
      (w : World) (g : DecoyCase × List DecoyHit) (rest : List Finding)
      → any (has_row id) rest ≡ true
      → any (has_row id) (elim (decoy_finding w g) [ none ↦ rest | some f ↦ f ∷ rest ]) ≡ true
  rest-kept w (k, []) rest h = h
  rest-kept w (k, x ∷ hits) rest h = or_right _ h

  findings-has :
      (w : World) (groups : List (DecoyCase × List DecoyHit))
      → any (has_hit id) groups ≡ true
      → any (has_row id) (collect (decoy_finding w) groups) ≡ true
  findings-has w [] h = h
  findings-has w (g ∷ groups) h = elim (either (has_hit id g) _ h) [
    | inl e ↦ row-kept w g _ e
    | inr e ↦ rest-kept w g _ (findings-has w groups e)
  ]

grouped_onto-has :
    (key : DecoyHit → DecoyCase) (hits : List DecoyHit) (groups : List (DecoyCase × List DecoyHit))
    → All (λ h. any (has_hit h.id) (grouped_onto same_case key hits groups) ≡ true) hits
grouped_onto-has key [] groups = tt
grouped_onto-has key (x ∷ hits) groups = (
  grouped_onto-keeps x.id key hits _ (appended-has x.id (key x) x groups refl),
  grouped_onto-has key hits (appended same_case (key x) x groups),
)

All-implies {ℓ κ μ} :
    {A : Type ℓ} {P : A → Type κ} {Q : A → Type μ} (xs : List A)
    → ((x : A) → P x → Q x)
    → All P xs
    → All Q xs
All-implies [] f h = tt
All-implies (x ∷ xs) f (k, h) = (f x k, All-implies xs f h)

-- Every touch of a decoy in the window stands in the evidence of a finding, whichever decoys, addresses
-- and days the touches share.
pub decoy_touch-reported :
    (w : World) (db : Store) (since now : Time)
    → All (λ h. any (has_row h.id) (decoy_touch w db since now) ≡ true) (decoys_in since now db)
unfolding decoy_touch
decoy_touch-reported w db since now =
    let groups = grouped_onto same_case (decoy_case w) (decoys_in since now db) [] in
    All-implies (decoys_in since now db) (λ h e. findings-has h.id w groups e)
      (grouped_onto-has (decoy_case w) (decoys_in since now db) [])
