-- ===== src/Tags/Import.antt =====
-- `import_csv` of backend/app/services/nfc_tags.py, behind the standard library's CSV reader: a line
-- holds the three columns, stripped; an empty `uid_reversed` is a missing one.
use erp_iot.Base.{
  ℕ, suc, ◌+◌, String, Bool, true, false, not, ◌&&◌, ◌||◌, Option, none, some, List, [], ◌∷◌, ◌++◌,
  first, map, any, is_some, length, ◌==◌, if◌then◌else◌, str_eq,
}
use erp_iot.Base.Json.{get}
use erp_iot.Base.Text.{strip}
use erp_iot.Tags.{Uid, normalise, both_forms, same_uid, Tag}
pub mod Content
pub mod Complete

pub record Line : Type 0 where
  pub outlet : String
  pub uid : List ℕ
  pub uid_reversed : List ℕ

pub data LineError : Type 0 where
  no_outlet not_the_reverse bad_uid twice_in_file on_another_outlet : LineError

-- the names of a cabinet's outlets with their keys
abbrev pub Outlets : Type 0
Outlets = List (String × ℕ)

-- what the loop holds: the forms seen with their outlet, the tags to write, and the report
pub record Scan : Type 0 where
  pub seen : List (Uid × String)
  pub waiting : List Tag
  pub unchanged : List (String × Uid)
  pub errors : List LineError

abbrev pub with_error : LineError → Scan → Scan
with_error e s = record s { errors = e ∷ s.errors }

-- `seen[form] != name`
abbrev pub seen_elsewhere : Uid → String → List (Uid × String) → Bool
seen_elsewhere form name [] = false
seen_elsewhere form name ((u, n) ∷ seen) =
    if same_uid u form then not (str_eq n name) else seen_elsewhere form name seen

abbrev pub check_seen : Uid → String → Scan → Scan
check_seen form name s = if seen_elsewhere form name s.seen then with_error twice_in_file s else s

-- `_existing`: a tag stored in either order matches either form
abbrev pub touches : Uid → Uid → Tag → Bool
touches primary rev t =
    same_uid t.uid_primary primary
    || same_uid t.uid_primary rev
    || same_uid t.uid_reversed primary
    || same_uid t.uid_reversed rev

abbrev pub new_tag : ℕ → Uid → Uid → Tag
new_tag outlet primary rev = record {
  outlet_id = outlet;
  uid_primary = primary;
  uid_reversed = rev;
  is_active = true;
}

-- a line whose UID is good, by the tag that already has it
abbrev pub place : String → ℕ → Uid → Uid → Option Tag → Scan → Scan
place name outlet primary rev none s = record s { waiting = new_tag outlet primary rev ∷ s.waiting }
place name outlet primary rev (some t) s =
    if t.outlet_id == outlet
    then record s { unchanged = (name, primary) ∷ s.unchanged }
    else with_error on_another_outlet s

abbrev pub with_forms : List Tag → String → ℕ → Uid → Uid → Scan → Scan
with_forms tags name outlet primary rev s =
    let s' = check_seen rev name (check_seen primary name s) in
    place name outlet primary rev (first (touches primary rev) tags)
      (record s' { seen = (rev, name) ∷ (primary, name) ∷ s'.seen })

-- the second column against the byte-reverse; a bad one is a UidError
abbrev pub is_given : List ℕ → Bool
is_given [] = false
is_given (c ∷ cs) = true

abbrev pub reverse_error : List ℕ → Uid → Option LineError
reverse_error given rev = if not (is_given given) then none else elim (normalise given) [
  | none ↦ some bad_uid
  | some u ↦ if same_uid u rev then none else some not_the_reverse
]

abbrev pub scan_forms : List Tag → String → ℕ → Uid → Uid → Option LineError → Scan → Scan
scan_forms tags name outlet primary rev (some e) s = with_error e s
scan_forms tags name outlet primary rev none s = with_forms tags name outlet primary rev s

abbrev pub scan_uid : List Tag → Line → ℕ → Option (Uid × Uid) → Scan → Scan
scan_uid tags l outlet none s = with_error bad_uid s
scan_uid tags l outlet (some (primary, rev)) s =
    scan_forms tags l.outlet outlet primary rev (reverse_error l.uid_reversed rev) s

abbrev pub scan_at : List Tag → Line → Option ℕ → Scan → Scan
scan_at tags l none s = with_error no_outlet s
scan_at tags l (some outlet) s = scan_uid tags l outlet (both_forms l.uid) s

abbrev pub scan_lines : Outlets → List Tag → List Line → Scan → Scan
scan_lines outlets tags [] s = s
scan_lines outlets tags (l ∷ ls) s =
    scan_lines outlets tags ls (scan_at tags l (get l.outlet outlets) s)

pub data Imported : Type 0 where
  not_attributed integrity_error : Imported
  report : (added : List Tag) → (unchanged : List (String × Uid)) → List LineError → Imported

-- the two unique columns of `OutletNfcTag`; the loop keeps every old tag apart from the new ones
abbrev pub twins : Tag → Tag → Bool
twins t u = same_uid t.uid_primary u.uid_primary || same_uid t.uid_reversed u.uid_reversed

abbrev pub has_twins : List Tag → Bool
has_twins [] = false
has_twins (t ∷ tags) = any (twins t) tags || has_twins tags

abbrev pub committed : Bool → List Tag → Scan → Imported × List Tag
committed true tags s = (integrity_error, tags)
committed false tags s = (report s.waiting s.unchanged [], s.waiting ++ tags)

-- one error, and nothing is written
abbrev pub written : List Tag → Scan → List LineError → Imported × List Tag
written tags s [] = committed (has_twins s.waiting) tags s
written tags s (e ∷ es) = (report [] s.unchanged (e ∷ es), tags)

abbrev pub import_lines : List Tag → Scan → Imported × List Tag
import_lines tags s = written tags s s.errors

abbrev pub empty_scan : Scan
empty_scan = record { seen = []; waiting = []; unchanged = []; errors = [] }

-- `import_csv`; `provisioned_by` that is missing or blank is the DomainError
unfoldable pub import_tags : Outlets → Option String → List Line → List Tag → Imported × List Tag
import_tags outlets none lines tags = (not_attributed, tags)
import_tags outlets (some by) lines tags =
    if str_eq (strip by) ""
    then (not_attributed, tags)
    else import_lines tags (scan_lines outlets tags lines empty_scan)
