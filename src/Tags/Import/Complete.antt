-- ===== src/Tags/Import/Complete.antt =====
-- An import accounts for every line, or writes nothing.
use erp_iot.Base.{
  ℕ, ◌+◌, ◌≤◌, ◌≡◌, inl, inr, refl, ap, sym, subst, All, String, Bool, true, false, Option, none,
  some, List, [], ◌∷◌, ◌++◌, arith, Bool-cases, length, first, str_eq, ◌==◌,
}
use erp_iot.Base.Json.{get}
use erp_iot.Base.Text.{strip}
use erp_iot.Tags.{Uid, both_forms, Tag}
use erp_iot.Tags.Lookup.{IsPaired}
use erp_iot.Tags.Import.Content.{IsAdded, IsFound, IsSound, scan_lines-IsSound}
use erp_iot.Tags.Import.{
  Line, LineError, Outlets, Scan, with_error, bad_uid, no_outlet, on_another_outlet, seen_elsewhere,
  check_seen, touches, place, with_forms, reverse_error, scan_uid, scan_at, scan_lines, Imported,
  report, not_attributed, integrity_error, committed, has_twins, scan_forms, written, empty_scan,
  import_tags,
}

-- What one line does to the counts of the report.
record Counts (lines : ℕ) (s s' : Scan) : Type 0 where
  errors : length s.errors ≤ length s'.errors
  all_counted :
      length s.waiting + length s.unchanged + length s.errors + lines
      ≤ length s'.waiting + length s'.unchanged + length s'.errors
  none_twice :
      length s'.waiting + length s'.unchanged ≤ length s.waiting + length s.unchanged + lines

-- The checks before a line is placed count no line.
record Checked (s s' : Scan) : Type 0 where
  errors : length s.errors ≤ length s'.errors
  waiting : s'.waiting ≡ s.waiting
  unchanged : s'.unchanged ≡ s.unchanged

with_error-Counts : (e : LineError) (s : Scan) → Counts 1 s (with_error e s)
with_error-Counts e s = record {
  errors = omega arith;
  all_counted = omega arith;
  none_twice = omega arith;
}

check_seen-Checked : (form : Uid) (name : String) (s : Scan) → Checked s (check_seen form name s)
check_seen-Checked form name s = elim (Bool-cases (seen_elsewhere form name s.seen)) [
  | inl b ↦ rw b (record { errors = omega arith; waiting = refl; unchanged = refl })
  | inr b ↦ rw b (record { errors = omega arith; waiting = refl; unchanged = refl })
]

place-Counts :
    (name : String) (outlet : ℕ) (primary rev : Uid) (found : Option Tag) (s : Scan)
    → Counts 1 s (place name outlet primary rev found s)
place-Counts name outlet primary rev none s = record {
  errors = omega arith;
  all_counted = omega arith;
  none_twice = omega arith;
}
place-Counts name outlet primary rev (some t) s = elim (Bool-cases (t.outlet_id == outlet)) [
  | inl b ↦
      rw b (record { errors = omega arith; all_counted = omega arith; none_twice = omega arith })
  | inr b ↦ rw b (with_error-Counts on_another_outlet s)
]

Counts-Checked : (s s' s'' : Scan) → Checked s s' → Counts 1 s' s'' → Counts 1 s s''
Counts-Checked s s' s'' c k =
    let w : length s'.waiting ≡ length s.waiting = ap (λ x. length x) c.waiting in
    let u : length s'.unchanged ≡ length s.unchanged = ap (λ x. length x) c.unchanged in
    record {
      errors = omega (arith, c.errors, k.errors);
      all_counted = omega (arith, c.errors, k.all_counted, w, u);
      none_twice = omega (arith, k.none_twice, w, u);
    }

with_forms-Counts :
    (tags : List Tag) (name : String) (outlet : ℕ) (primary rev : Uid) (s : Scan)
    → Counts 1 s (with_forms tags name outlet primary rev s)
with_forms-Counts tags name outlet primary rev s =
    let s1 = check_seen primary name s in
    let s2 = check_seen rev name s1 in
    Counts-Checked s s1 _ (check_seen-Checked primary name s) (
      Counts-Checked s1 s2 _ (check_seen-Checked rev name s1) (
        Counts-Checked s2 (record s2 { seen = (rev, name) ∷ (primary, name) ∷ s2.seen }) _
          (record { errors = omega arith; waiting = refl; unchanged = refl })
          (place-Counts name outlet primary rev (first (touches primary rev) tags) _)))

scan_forms-Counts :
    (tags : List Tag) (name : String) (outlet : ℕ) (primary rev : Uid) (e : Option LineError)
    (s : Scan)
    → Counts 1 s (scan_forms tags name outlet primary rev e s)
scan_forms-Counts tags name outlet primary rev (some e) s = with_error-Counts e s
scan_forms-Counts tags name outlet primary rev none s =
    with_forms-Counts tags name outlet primary rev s

scan_uid-Counts :
    (tags : List Tag) (l : Line) (outlet : ℕ) (forms : Option (Uid × Uid)) (s : Scan)
    → Counts 1 s (scan_uid tags l outlet forms s)
scan_uid-Counts tags l outlet none s = with_error-Counts bad_uid s
scan_uid-Counts tags l outlet (some (primary, rev)) s =
    scan_forms-Counts tags l.outlet outlet primary rev (reverse_error l.uid_reversed rev) s

scan_at-Counts :
    (tags : List Tag) (l : Line) (outlet : Option ℕ) (s : Scan)
    → Counts 1 s (scan_at tags l outlet s)
scan_at-Counts tags l none s = with_error-Counts no_outlet s
scan_at-Counts tags l (some outlet) s = scan_uid-Counts tags l outlet (both_forms l.uid) s

scan_lines-Counts :
    (outlets : Outlets) (tags : List Tag) (lines : List Line) (s : Scan)
    → Counts (length lines) s (scan_lines outlets tags lines s)
scan_lines-Counts outlets tags [] s = record {
  errors = omega arith;
  all_counted = omega arith;
  none_twice = omega arith;
}
scan_lines-Counts outlets tags (l ∷ lines) s =
    let s' = scan_at tags l (get l.outlet outlets) s in
    let a = scan_at-Counts tags l (get l.outlet outlets) s in
    let b = scan_lines-Counts outlets tags lines s' in
    record {
      errors = omega (arith, a.errors, b.errors);
      all_counted = omega (arith, a.all_counted, b.all_counted);
      none_twice = omega (arith, a.none_twice, b.none_twice);
    }

-- What an answer says of the tags behind the import.
abbrev pub IsAccounted : Outlets → List Line → List Tag → Imported × List Tag → Type 0
IsAccounted outlets lines tags (not_attributed, after) = after ≡ tags
IsAccounted outlets lines tags (integrity_error, after) = after ≡ tags
IsAccounted outlets lines tags (report added unchanged [], after) =
    (after ≡ added ++ tags)
    × (length added + length unchanged ≡ length lines)
    × All (IsAdded outlets lines tags) added
    × All (IsFound outlets tags) unchanged
    × (has_twins added ≡ false)
IsAccounted outlets lines tags (report added unchanged (e ∷ es), after) =
    (added ≡ []) × (after ≡ tags)

written-IsAccounted :
    (outlets : Outlets) (lines : List Line) (tags : List Tag) (s : Scan) (errors : List LineError)
    → Counts (length lines) empty_scan s
    → IsSound outlets lines tags s
    → s.errors ≡ errors
    → IsAccounted outlets lines tags (written tags s errors)
written-IsAccounted outlets lines tags s [] c i e = by_twins (has_twins s.waiting) refl
  where
    none_left : length s.errors ≡ 0
    none_left = ap (λ x. length x) e

    by_twins :
        (b : Bool) → has_twins s.waiting ≡ b → IsAccounted outlets lines tags (committed b tags s)
    by_twins true h = refl
    by_twins false h =
        (refl, omega (arith, none_left, c.all_counted, c.none_twice), i.added, i.found, h)
written-IsAccounted outlets lines tags s (x ∷ errors) c i e = (refl, refl)

pub import_tags-IsAccounted :
    (outlets : Outlets) (by : Option String) (lines : List Line) (tags : List Tag)
    → IsAccounted outlets lines tags (import_tags outlets by lines tags)
unfolding import_tags
import_tags-IsAccounted outlets none lines tags = refl
import_tags-IsAccounted outlets (some by) lines tags = elim (Bool-cases (str_eq (strip by) "")) [
  | inl b ↦ rw (import_tags, b) refl
  | inr b ↦
      let s = scan_lines outlets tags lines empty_scan in
      rw (import_tags, b)
        (written-IsAccounted outlets lines tags s s.errors
          (scan_lines-Counts outlets tags lines empty_scan)
          (scan_lines-IsSound outlets lines tags [] lines empty_scan refl
            (record { added = tt; found = tt }))
          refl)
]

added-IsPaired :
    (outlets : Outlets) (lines : List Line) (tags added old : List Tag)
    → All (IsAdded outlets lines tags) added
    → IsPaired old
    → IsPaired (added ++ old)
added-IsPaired outlets lines tags [] old h k = k
added-IsPaired outlets lines tags (t ∷ added) old (i, h) k =
    (i.reversed, added-IsPaired outlets lines tags added old h k)

accounted-IsPaired :
    (outlets : Outlets) (lines : List Line) (tags : List Tag) (r : Imported × List Tag)
    → IsAccounted outlets lines tags r
    → IsPaired tags
    → IsPaired r.1
accounted-IsPaired outlets lines tags (not_attributed, after) h k = subst IsPaired (sym h) k
accounted-IsPaired outlets lines tags (integrity_error, after) h k = subst IsPaired (sym h) k
accounted-IsPaired outlets lines tags (report added unchanged [], after) (e, n, a, f, w) k =
    subst IsPaired (sym e) (added-IsPaired outlets lines tags added tags a k)
accounted-IsPaired outlets lines tags (report added unchanged (x ∷ xs), after) (e, h) k =
    subst IsPaired (sym h) k

-- However the import ends, a table in which every tag's reversed form is the byte-reverse of its
-- primary form stays one.
pub import_tags-IsPaired :
    (outlets : Outlets) (by : Option String) (lines : List Line) (tags : List Tag)
    → IsPaired tags
    → IsPaired (import_tags outlets by lines tags).1
import_tags-IsPaired outlets by lines tags h =
    accounted-IsPaired outlets lines tags (import_tags outlets by lines tags)
      (import_tags-IsAccounted outlets by lines tags) h
