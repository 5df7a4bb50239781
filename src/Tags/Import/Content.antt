-- ===== src/Tags/Import/Content.antt =====
-- What an import writes: the tags that it adds and those that it finds.
use erp_iot.Base.{
  ◌≡◌, inl, inr, refl, sym, ap, ◌∙◌, String, true, ℕ, Option, none, some, List, [], ◌∷◌, ◌++◌, All,
  Bool-cases, Option-cases, some-injective, first, ◌==◌, ==_iff,
}
use erp_iot.Base.Json.{get}
use mathlib.Core.Option
use mathlib.Core.List.{reverse, append_assoc}
use erp_iot.Tags.{Uid, normalise, reversed_form, with_reversed, both_forms, Tag}
use erp_iot.Tags.Forms.{normalise-IsUid, IsUid-read}
use erp_iot.Tags.Import.{
  Line, LineError, Outlets, Scan, with_error, seen_elsewhere, check_seen, touches, place,
  reverse_error, scan_uid, scan_at, scan_lines, scan_forms,
}

-- A tag that a line of the file adds.
pub record IsAdded (outlets : Outlets) (lines : List Line) (tags : List Tag) (t : Tag)
    : Type 0 where
  pub line : Line
  pub before : List Line
  pub after : List Line
  pub listed : before ++ line ∷ after ≡ lines
  pub named : get line.outlet outlets ≡ some t.outlet_id
  pub read : normalise line.uid ≡ some t.uid_primary
  pub reversed : t.uid_reversed ≡ reverse t.uid_primary
  pub active : t.is_active ≡ true
  pub unknown : first (touches t.uid_primary t.uid_reversed) tags ≡ none

-- A line whose tag is there: its outlet already has a tag with that UID, in one order or the other.
pub record IsFound (outlets : Outlets) (tags : List Tag) (e : String × Uid) : Type 0 where
  pub tag : Tag
  pub named : get e.0 outlets ≡ some tag.outlet_id
  pub found : first (touches e.1 (reverse e.1)) tags ≡ some tag

-- `both_forms` answers a normalised UID and its reverse.
both_forms-reverse :
    (text : List ℕ) (p r : Uid)
    → both_forms text ≡ some (p, r)
    → (normalise text ≡ some p) × (r ≡ reverse p)
unfolding both_forms reversed_form
both_forms-reverse text p r h = elim (Option-cases (normalise text)) [
  | inl e ↦ absurd (none_some (sym (ap step e) ∙ h))
  | inr (n, e) ↦
      let again : with_reversed n ≡ some (n, reverse n) =
        ap (λ o. Option.map (λ x. (n, x)) (Option.map reverse o))
          (IsUid-read n (normalise-IsUid text n e)) in
      let same = some-injective (sym again ∙ sym (ap step e) ∙ h) in
      (e ∙ ap (λ q. some q.0) same, sym (ap (λ q. q.1) same) ∙ ap (λ q. reverse q.0) same)
]
  where
    step : Option Uid → Option (Uid × Uid)
    step o = elim o [ none ↦ none | some n ↦ with_reversed n ]

    none_some : {x : Uid × Uid} → Path (Option (Uid × Uid)) none (some x) → ⊥
    none_some h = cc

module _ (outlets : Outlets) (lines : List Line) (tags : List Tag) where
  pub record IsSound (s : Scan) : Type 0 where
    pub added : All (IsAdded outlets lines tags) s.waiting
    pub found : All (IsFound outlets tags) s.unchanged

  with_error-IsSound : (e : LineError) (s : Scan) → IsSound s → IsSound (with_error e s)
  with_error-IsSound e s h = record { added = h.added; found = h.found }

  check_seen-IsSound :
      (form : Uid) (name : String) (s : Scan) → IsSound s → IsSound (check_seen form name s)
  check_seen-IsSound form name s h = elim (Bool-cases (seen_elsewhere form name s.seen)) [
    | inl b ↦ rw b (record { added = h.added; found = h.found })
    | inr b ↦ rw b (record { added = h.added; found = h.found })
  ]

  module _ (l : Line) (before after : List Line) (listed : before ++ l ∷ after ≡ lines) (outlet : ℕ)
      (named : get l.outlet outlets ≡ some outlet) (primary rev : Uid)
      (read : normalise l.uid ≡ some primary) (paired : rev ≡ reverse primary) where
    place-IsSound :
        (o : Option Tag) (s : Scan)
        → first (touches primary rev) tags ≡ o
        → IsSound s
        → IsSound (place l.outlet outlet primary rev o s)
    place-IsSound none s e h = record {
      added = (
        record {
          line = l;
          before = before;
          after = after;
          listed = listed;
          named = named;
          read = read;
          reversed = paired;
          active = refl;
          unknown = e;
        },
        h.added,
      );
      found = h.found;
    }
    place-IsSound (some t) s e h = elim (Bool-cases (t.outlet_id == outlet)) [
      | inl b ↦ rw b (record {
        added = h.added;
        found = (
          record {
            tag = t;
            named = named ∙ ap (λ n. some n) (sym ((==_iff t.outlet_id outlet).0 b));
            found = ap (λ r. first (touches primary r) tags) (sym paired) ∙ e;
          },
          h.found,
        );
      })
      | inr b ↦ rw b (record { added = h.added; found = h.found })
    ]

    scan_forms-IsSound :
        (e : Option LineError) (s : Scan)
        → IsSound s
        → IsSound (scan_forms tags l.outlet outlet primary rev e s)
    scan_forms-IsSound (some e) s h = with_error-IsSound e s h
    scan_forms-IsSound none s h =
        let s1 = check_seen primary l.outlet s in
        let s2 = check_seen rev l.outlet s1 in
        let i = check_seen-IsSound rev l.outlet s1 (check_seen-IsSound primary l.outlet s h) in
        place-IsSound (first (touches primary rev) tags)
          (record s2 { seen = (rev, l.outlet) ∷ (primary, l.outlet) ∷ s2.seen }) refl
          (record { added = i.added; found = i.found })

  scan_uid-IsSound :
      (l : Line) (before after : List Line)
      → before ++ l ∷ after ≡ lines
      → (outlet : ℕ) (forms : Option (Uid × Uid)) (s : Scan) → get l.outlet outlets ≡ some outlet
      → both_forms l.uid ≡ forms
      → IsSound s
      → IsSound (scan_uid tags l outlet forms s)
  scan_uid-IsSound l before after i outlet none s n e h = record {
    added = h.added;
    found = h.found;
  }
  scan_uid-IsSound l before after i outlet (some (primary, rev)) s n e h =
      let (read, paired) = both_forms-reverse l.uid primary rev e in
      scan_forms-IsSound l before after i outlet n primary rev read paired
        (reverse_error l.uid_reversed rev) s h

  scan_at-IsSound :
      (l : Line) (before after : List Line)
      → before ++ l ∷ after ≡ lines
      → (o : Option ℕ) (s : Scan) → get l.outlet outlets ≡ o
      → IsSound s
      → IsSound (scan_at tags l o s)
  scan_at-IsSound l before after i none s n h = record { added = h.added; found = h.found }
  scan_at-IsSound l before after i (some outlet) s n h =
      scan_uid-IsSound l before after i outlet (both_forms l.uid) s n refl h

  -- What a scan has to add and what it found come from its lines.
  pub scan_lines-IsSound :
      (before rest : List Line) (s : Scan)
      → before ++ rest ≡ lines
      → IsSound s
      → IsSound (scan_lines outlets tags rest s)
  scan_lines-IsSound before [] s e h = h
  scan_lines-IsSound before (l ∷ rest) s e h =
      scan_lines-IsSound (before ++ l ∷ []) rest _ (append_assoc before (l ∷ []) rest ∙ e)
        (scan_at-IsSound l before rest e (get l.outlet outlets) s refl h)
