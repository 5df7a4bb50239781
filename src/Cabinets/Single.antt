-- ===== src/Cabinets/Single.antt =====
-- backend/app/services/cabinets.py: a socket serves one berth at most, and a berth has one at most.
use erp_iot.Base.{
  ℕ, String, ◌≡◌, refl, inl, inr, Bool, true, false, not, ◌&&◌, ◌||◌, Option, none, some, List, [],
  ◌∷◌, ◌++◌, map, any, select, length, ltb, ◌==◌, All, Bool-cases, arith, subst,
}
use erp_iot.Base.Time.{Time}
use erp_iot.Cabinets.{
  Outlet, Berth, BerthOutlet, Store, Outcome, refused, done, ◌>>=◌, is_electricity, electric,
  is_taken, untaken, row_of, without_berth, has_repeats, outlets_named, actor_of, written, linked,
  set_berth_outlets,
}

-- two rows of electricity with the same outlet or the same berth
abbrev pub clashes : BerthOutlet → BerthOutlet → Bool
clashes a b =
    is_electricity a.medium
    && is_electricity b.medium
    && (a.outlet_id == b.outlet_id || a.berth_id == b.berth_id)

abbrev pub NoClash : BerthOutlet → List BerthOutlet → Type 0
NoClash a rows = All (λ b. clashes a b ≡ false) rows

abbrev pub IsSingle : List BerthOutlet → Type 0
IsSingle [] = Unit {0}
IsSingle (a ∷ rows) = NoClash a rows × IsSingle rows

NoClash-select :
    (p : BerthOutlet → Bool) (a : BerthOutlet) (rows : List BerthOutlet)
    → NoClash a rows
    → NoClash a (select p rows)
NoClash-select p a [] h = tt
NoClash-select p a (b ∷ rows) (k, h) = elim (Bool-cases (p b)) [
  | inl e ↦ rw e (k, NoClash-select p a rows h)
  | inr e ↦ rw e (NoClash-select p a rows h)
]

IsSingle-select :
    (p : BerthOutlet → Bool) (rows : List BerthOutlet) → IsSingle rows → IsSingle (select p rows)
IsSingle-select p [] h = tt
IsSingle-select p (a ∷ rows) (k, h) = elim (Bool-cases (p a)) [
  | inl e ↦ rw e (NoClash-select p a rows k, IsSingle-select p rows h)
  | inr e ↦ rw e (IsSingle-select p rows h)
]

NoClash-append :
    (a : BerthOutlet) (xs ys : List BerthOutlet)
    → NoClash a xs
    → NoClash a ys
    → NoClash a (xs ++ ys)
NoClash-append a [] ys g h = h
NoClash-append a (x ∷ xs) ys (k, g) h = (k, NoClash-append a xs ys g h)

IsSingle-append :
    (xs ys : List BerthOutlet)
    → IsSingle xs
    → IsSingle ys
    → All (λ x. NoClash x ys) xs
    → IsSingle (xs ++ ys)
IsSingle-append [] ys g h k = h
IsSingle-append (x ∷ xs) ys (gx, g) h (kx, k) =
    (NoClash-append x xs ys gx kx, IsSingle-append xs ys g h k)

or_false : (a b : Bool) → (a || b) ≡ false → (a ≡ false) × (b ≡ false)
or_false true b h = ground (arith, h)
or_false false b h = (refl, h)

-- a row that another berth has, and that is not of this outlet
kept_clash :
    (medium medium' : Bool) (m n berth other : ℕ)
    → (n == m && not (other == berth)) ≡ false
    → (other == berth) ≡ false
    → (medium && medium' && (m == n || berth == other)) ≡ false
kept_clash medium medium' m n berth other h e = ground (arith, h, e)

module _ (berth : ℕ) (actor source : String) (now : Time) where
  abbrev row : Outlet → BerthOutlet
  row o = row_of berth actor source now o

  -- a new row and one that stays: another berth, and not this outlet
  NoClash-kept :
      (o : Outlet) (rows : List BerthOutlet)
      → any (λ r. r.outlet_id == o.id && not (r.berth_id == berth)) rows ≡ false
      → NoClash (row o) (without_berth berth rows)
  NoClash-kept o [] h = tt
  NoClash-kept o (r ∷ rows) h =
      let (here, there) = or_false (r.outlet_id == o.id && not (r.berth_id == berth)) _ h in
      elim (Bool-cases (r.berth_id == berth)) [
        | inl e ↦ rw e (NoClash-kept o rows there)
        | inr e ↦ rw e (
          kept_clash (is_electricity o.medium) (is_electricity r.medium) o.id r.outlet_id berth
              r.berth_id here e,
          NoClash-kept o rows there,
        )
      ]

  -- a row of water clashes with none
  NoClash-water :
      (o : Outlet) (rows : List BerthOutlet)
      → is_electricity o.medium ≡ false
      → NoClash (row o) rows
  NoClash-water o [] h = tt
  NoClash-water o (r ∷ rows) h = (ground (arith, h), NoClash-water o rows h)

  -- behind the one electric outlet there are only rows of water
  NoClash-waters :
      (o : Outlet) (outs : List Outlet)
      → length (electric outs) ≡ 0
      → NoClash (row o) (map row outs)
  NoClash-waters o [] h = tt
  NoClash-waters o (p ∷ outs) h = elim (Bool-cases (is_electricity p.medium)) [
    | inl e ↦ ground (arith, h, e)
    | inr e ↦ (ground (arith, e), NoClash-waters o outs (ground (arith, h, e)))
  ]

  rows-IsSingle :
      (outs : List Outlet) → ltb 1 (length (electric outs)) ≡ false → IsSingle (map row outs)
  rows-IsSingle [] h = tt
  rows-IsSingle (o ∷ outs) h = elim (Bool-cases (is_electricity o.medium)) [
    | inl e ↦
        (NoClash-waters o outs (ground (arith, h, e)), rows-IsSingle outs (ground (arith, h, e)))
    | inr e ↦ (NoClash-water o (map row outs) e, rows-IsSingle outs (ground (arith, h, e)))
  ]

  rows-NoClash :
      (db : Store) (outs : List Outlet)
      → untaken db berth (electric outs) ≡ done tt
      → All (λ x. NoClash x (without_berth berth db.berth_outlets)) (map row outs)
  rows-NoClash db [] h = tt
  rows-NoClash db (o ∷ outs) h = elim (Bool-cases (is_electricity o.medium)) [
    | inl e ↦ elim (Bool-cases (is_taken db berth o)) [
      | inl t ↦ ground (arith, h, e, t)
      | inr f ↦ (NoClash-kept o db.berth_outlets f, rows-NoClash db outs (ground (arith, h, e, f)))
    ]
    | inr e ↦ (
      NoClash-water o (without_berth berth db.berth_outlets) e,
      rows-NoClash db outs (ground (arith, h, e)),
    )
  ]

-- what holds of the rows that an operation leaves, where it is not refused
abbrev HoldsIfDone : (Store → Type 0) → Outcome Store → Type 0
HoldsIfDone P (refused p) = Unit {0}
HoldsIfDone P (done db) = P db

bind-HoldsIfDone {ℓ} :
    {A : Type ℓ} (P : Store → Type 0) (m : Outcome A) (f : A → Outcome Store)
    → ((a : A) → m ≡ done a → HoldsIfDone P (f a))
    → HoldsIfDone P (m >>= f)
bind-HoldsIfDone P (refused p) f h = tt
bind-HoldsIfDone P (done a) f h = h a refl

abbrev AreSingle : Store → Type 0
AreSingle db = IsSingle db.berth_outlets

module _ (now : Time) (berth : Berth) (db : Store) (single : IsSingle db.berth_outlets) where
  assigned-IsSingle :
      (actor source : String) (outs : List Outlet) (free : Unit {0})
      → ltb 1 (length (electric outs)) ≡ false
      → untaken db berth.id (electric outs) ≡ done free
      → IsSingle
          (map (row_of berth.id actor source now) outs ++ without_berth berth.id db.berth_outlets)
  assigned-IsSingle actor source outs free few untaken_all =
      IsSingle-append (map (row_of berth.id actor source now) outs) _
        (rows-IsSingle berth.id actor source now outs few)
        (IsSingle-select (λ r. not (r.berth_id == berth.id)) db.berth_outlets single)
        (rows-NoClash berth.id actor source now db outs untaken_all)

  written-AreSingle :
      (cabinet : ℕ) (actor source : String) (outs : List Outlet)
      → HoldsIfDone AreSingle (written now berth cabinet actor source outs db)
  written-AreSingle cabinet actor source outs = elim (Bool-cases (ltb 1 (length (electric outs)))) [
    | inl t ↦ rw t tt
    | inr few ↦ rw few (
        bind-HoldsIfDone AreSingle (untaken db berth.id (electric outs)) _ (λ free e.
          elim (Bool-cases (has_repeats outs)) [
            | inl t ↦ rw t tt
            | inr f ↦ rw f (assigned-IsSingle actor source outs free few e)
          ]))
  ]

  linked-AreSingle :
      (cabinet : Option ℕ) (names : List String) (actor source : String)
      → HoldsIfDone AreSingle (linked now berth cabinet names actor source db)
  linked-AreSingle none names actor source = tt
  linked-AreSingle (some cabinet) names actor source =
      bind-HoldsIfDone AreSingle (outlets_named db cabinet names) _
        (λ outs e. written-AreSingle cabinet actor source outs)

-- An assignment that is not refused keeps the rule that a socket serves one berth at most and that a
-- berth has one socket at most, whichever outlets are named.
pub set_berth_outlets-IsSingle :
    (now : Time) (berth : Berth) (names : List String) (assigned_by : Option String)
    (source : String) (db db' : Store)
    → IsSingle db.berth_outlets
    → set_berth_outlets now berth names assigned_by source db ≡ done db'
    → IsSingle db'.berth_outlets
unfolding set_berth_outlets
set_berth_outlets-IsSingle now berth names assigned_by source db db' single e =
    subst (HoldsIfDone AreSingle) e (
      bind-HoldsIfDone AreSingle (actor_of assigned_by) _
        (λ actor e'. linked-AreSingle now berth db single berth.cabinet_id names actor source))
