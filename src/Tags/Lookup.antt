-- ===== src/Tags/Lookup.antt =====
-- A tag is found in either byte order.
use erp_iot.Base.{
  ℕ, ◌≡◌, refl, sym, ap, ◌∙◌, subst, Bool, true, false, ◌&&◌, ◌||◌, some, List, [], ◌∷◌, ◌==◌,
  ==_iff, All, first,
}
use mathlib.Core.Option
use mathlib.Core.List.{reverse, reverse-reverse}
use erp_iot.Tags.{Uid, normalise, print, same_uid, Tag, carries, lookup}
use erp_iot.Tags.Forms.{normalise-IsUid, IsUid-read, reverse-IsUid}

same_uid_self : (u : Uid) → same_uid u u ≡ true
same_uid_self [] = refl
same_uid_self ((a, b) ∷ u) = rw ((==_iff a a).1 refl, (==_iff b b).1 refl, same_uid_self u) refl

same_uid-eq : (u v : Uid) → same_uid u v ≡ true → u ≡ v
same_uid-eq [] [] h = refl
same_uid-eq [] (q ∷ v) h = cc
same_uid-eq (p ∷ u) [] h = cc
same_uid-eq ((a, b) ∷ u) ((c, d) ∷ v) h =
    let (e, f, g) = three (a == c) (b == d) (same_uid u v) h in
    rw ((==_iff a c).0 e, (==_iff b d).0 f, same_uid-eq u v g) refl
  where
    three : (x y z : Bool) → (x && y && z) ≡ true → (x ≡ true) × (y ≡ true) × (z ≡ true)
    three true true true h = (refl, refl, refl)
    three true true false h = cc
    three true false z h = cc
    three false y z h = cc

bool_eq : (a b : Bool) → (a ≡ true → b ≡ true) → (b ≡ true → a ≡ true) → a ≡ b
bool_eq true b f g = sym (f refl)
bool_eq false true f g = g refl
bool_eq false false f g = refl

same_uid-reverse : (u v : Uid) → same_uid u (reverse v) ≡ same_uid (reverse u) v
same_uid-reverse u v =
    bool_eq (same_uid u (reverse v)) (same_uid (reverse u) v)
      (λ h.
        subst (λ w. same_uid w v ≡ true)
          (sym (ap reverse (same_uid-eq u (reverse v) h) ∙ reverse-reverse v)) (same_uid_self v))
      (λ h.
        subst (λ w. same_uid w (reverse v) ≡ true)
          (sym (sym (reverse-reverse u) ∙ ap reverse (same_uid-eq (reverse u) v h)))
          (same_uid_self (reverse v)))

-- Every tag holds both byte orders, as the import writes them.
abbrev pub IsPaired : List Tag → Type 0
IsPaired tags = All (λ t. t.uid_reversed ≡ reverse t.uid_primary) tags

or_comm : (a b : Bool) → (a || b) ≡ (b || a)
or_comm true true = refl
or_comm true false = refl
or_comm false true = refl
or_comm false false = refl

carries-reverse :
    (s : Uid) (t : Tag)
    → t.uid_reversed ≡ reverse t.uid_primary
    → carries (reverse s) t ≡ carries s t
carries-reverse s t e =
    let p = same_uid-reverse t.uid_primary s ∙ ap (λ u. same_uid u s) (sym e) in
    let q : same_uid t.uid_reversed (reverse s) ≡ same_uid t.uid_primary s =
      same_uid-reverse t.uid_reversed s
      ∙ ap (λ u. same_uid (reverse u) s) e
      ∙ ap (λ u. same_uid u s) (reverse-reverse t.uid_primary) in
    ap (λ b. t.is_active && b)
      (ap (λ b. b || same_uid t.uid_reversed (reverse s)) p
        ∙ ap (λ b. same_uid t.uid_reversed s || b) q
        ∙ or_comm (same_uid t.uid_reversed s) (same_uid t.uid_primary s))

first-carries :
    (s : Uid) (tags : List Tag)
    → IsPaired tags
    → first (carries (reverse s)) tags ≡ first (carries s) tags
first-carries s [] h = refl
first-carries s (t ∷ tags) (e, h) = rw (carries-reverse s t e, first-carries s tags h) refl

-- In a table in which every tag's reversed form is the byte-reverse of its primary form, the look-up
-- answers the same tag for either byte order of a UID that it can read.
pub lookup-reversed :
    (text : List ℕ) (u : Uid) (tags : List Tag)
    → IsPaired tags
    → normalise text ≡ some u
    → lookup (print (reverse u)) tags ≡ lookup text tags
unfolding lookup
lookup-reversed text u tags p h =
    ap (Option.map (λ s. first (carries s) tags))
      (IsUid-read (reverse u) (reverse-IsUid u (normalise-IsUid text u h)))
    ∙ ap some (first-carries u tags p)
    ∙ sym (ap (Option.map (λ s. first (carries s) tags)) h)
