-- ===== src/Credit/Tests.antt =====
-- Posts at fixed amounts, and the theorems at them.
use erp_iot.Base.{◌≡◌, refl, none, some, [], ◌∷◌}
use erp_iot.Base.Int.{pos, negsuc, ◌+ℤ◌, quantized}
use erp_iot.Base.Text.{strip}
use erp_iot.Credit.{
  CreditRow, Request, refused, row, zero_row, negative_topup, balance, last_row, quantize, post,
  run,
}
use erp_iot.Credit.Chain.{total, run-balance}

-- 12.345 is a half above an even cent
abbrev top_up : Request
top_up = record {
  customer_id = 4;
  delta = pos 123450;
  reason = "topup";
  created_by = some " anna ";
  session_id = none;
}

abbrev too_small : Request
too_small = record top_up { delta = pos 50 }

abbrev used : Request
used = record top_up { delta = negsuc 9999; reason = "consumption"; session_id = some 8 }

abbrev top_up_row : CreditRow
top_up_row = record {
  customer_id = 4;
  delta = pos 1234;
  reason = "topup";
  session_id = none;
  balance_after = pos 1234;
  created_by = "anna";
}

top_up_posted : post [] top_up ≡ row top_up_row
unfolding post quantize quantized balance last_row strip ◌+ℤ◌
top_up_posted = refl

refused_posts :
    (post [] too_small ≡ refused zero_row)
    × (post [] (record used { reason = "topup" }) ≡ refused negative_topup)
unfolding post quantize quantized strip
refused_posts = (refl, refl)

used-balance : balance (run [] (top_up ∷ used ∷ [])) 4 ≡ pos 1134
unfolding run post quantize quantized balance last_row strip ◌+ℤ◌
used-balance = refl

run-balance_example :
    balance (run [] (top_up ∷ used ∷ [])) 4 ≡ total (run [] (top_up ∷ used ∷ [])) 4
run-balance_example = run-balance (top_up ∷ used ∷ []) 4
