-- ===== src/Tags/Tests.antt =====
-- Tags at fixed texts, and the theorems at them.
use erp_iot.Base.{ℕ, ◌≡◌, refl, true, none, some, List, [], ◌∷◌}
use erp_iot.Base.Text.{strip}
use mathlib.Core.List.{reverse}
use erp_iot.Tags.{Uid, Tag, normalise, print, reversed_form, both_forms, lookup}
use erp_iot.Tags.Forms.{normalise-print}
use erp_iot.Tags.Lookup.{IsPaired, lookup-reversed}
use erp_iot.Tags.Import.{Line, Outlets, report, integrity_error, import_tags}
use erp_iot.Tags.Import.Complete.{import_tags-IsPaired}

-- "35-b2 e0"
abbrev typed : List ℕ
typed = b'3' ∷ b'5' ∷ b'-' ∷ b'b' ∷ b'2' ∷ b' ' ∷ b'e' ∷ b'0' ∷ []

abbrev uid : Uid
uid = (b'3', b'5') ∷ (b'B', b'2') ∷ (b'E', b'0') ∷ []

typed_normalised : normalise typed ≡ some uid
unfolding normalise
typed_normalised = refl

odd_refused : normalise (b'3' ∷ b'5' ∷ b'B' ∷ []) ≡ none
unfolding normalise
odd_refused = refl

abbrev tags : List Tag
tags =
    record { outlet_id = 3; uid_primary = uid; uid_reversed = reverse uid; is_active = true } ∷ []

abbrev line : Line
line = record { outlet = "Q1"; uid = typed; uid_reversed = [] }

abbrev outlets : Outlets
outlets = ("Q1", 3) ∷ []

one_added : import_tags outlets (some "anna") (line ∷ []) [] ≡ (report tags [] [], tags)
unfolding import_tags both_forms reversed_form normalise strip
one_added = refl

twice_listed : import_tags outlets (some "anna") (line ∷ line ∷ []) [] ≡ (integrity_error, [])
unfolding import_tags both_forms reversed_form normalise strip
twice_listed = refl

normalise-print_example : normalise (print uid) ≡ some uid
normalise-print_example = normalise-print typed uid typed_normalised

lookup-reversed_example : lookup (print (reverse uid)) tags ≡ lookup typed tags
lookup-reversed_example = lookup-reversed typed uid tags (refl, tt) typed_normalised

import_tags-IsPaired_example : IsPaired (import_tags outlets (some "anna") (line ∷ []) []).1
import_tags-IsPaired_example = import_tags-IsPaired outlets (some "anna") (line ∷ []) [] tt

-- one UID in both byte orders passes every check, and is stored as two tags
abbrev turned : Line
turned = record line { uid = b'E' ∷ b'0' ∷ b'B' ∷ b'2' ∷ b'3' ∷ b'5' ∷ [] }

abbrev turned_tag : Tag
turned_tag = record {
  outlet_id = 3;
  uid_primary = reverse uid;
  uid_reversed = uid;
  is_active = true;
}

added_twice :
    import_tags outlets (some "anna") (line ∷ turned ∷ []) []
    ≡ (report (turned_tag ∷ tags) [] [], turned_tag ∷ tags)
unfolding import_tags both_forms reversed_form normalise strip
added_twice = refl
