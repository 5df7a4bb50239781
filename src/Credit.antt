-- ===== src/Credit.antt =====
-- backend/app/services/credit.py and the table of backend/app/models/billing.py: the credit ledger.
-- Rows stand newest first, since their ids are given in order and this module is the only writer.
-- Amounts are cents; the posted amount is read in ten-thousandths, before `quantize`.
use erp_iot.Base.{
  ℕ, suc, ◌+◌, ◌*◌, ◌/◌, ◌%◌, String, Bool, true, false, not, ◌&&◌, ◌||◌, Option, none, some, List,
  [], ◌∷◌, first, ltb, ◌==◌, if◌then◌else◌, str_eq,
}
use erp_iot.Base.Int.{ℤ, pos, negsuc, ◌+ℤ◌, pos_part, neg_part, quantized}
use erp_iot.Base.Json.{mentions}
use erp_iot.Base.Text.{strip}
pub mod Chain
mod Tests

pub record CreditRow : Type 0 where
  pub customer_id : ℕ
  pub delta : ℤ
  pub reason : String
  pub session_id : Option ℕ
  pub balance_after : ℤ
  pub created_by : String

abbrev pub Ledger : Type 0
Ledger = List CreditRow

-- `REASONS`
abbrev pub reasons : List String
reasons = "topup" ∷ "consumption" ∷ "adjustment" ∷ "refund" ∷ []

pub data Refusal : Type 0 where
  created_by_required unknown_reason zero_row negative_topup : Refusal

pub data Posted : Type 0 where
  refused : Refusal → Posted
  row : CreditRow → Posted

-- the newest row of a customer
unfoldable pub last_row : ℕ → Ledger → Option CreditRow
last_row customer rows = first (λ r. r.customer_id == customer) rows

abbrev pub balance_of : Option CreditRow → ℤ
balance_of none = pos 0
balance_of (some r) = r.balance_after

-- `balance`
unfoldable pub balance : Ledger → ℕ → ℤ
balance rows customer = balance_of (last_row customer rows)

-- `quantize(Decimal("0.01"))`
unfoldable pub quantize : ℤ → ℤ
quantize d = quantized 100 d

abbrev pub is_zero : ℤ → Bool
is_zero d = pos_part d == 0 && neg_part d == 0

abbrev pub is_negative : ℤ → Bool
is_negative d = not (neg_part d == 0)

-- what a caller of `post` passes
pub record Request : Type 0 where
  pub customer_id : ℕ
  pub delta : ℤ
  pub reason : String
  pub created_by : Option String
  pub session_id : Option ℕ

-- `post` behind the test of its author
abbrev pub post_by : Ledger → Request → String → Posted
post_by rows q author =
    let d = quantize q.delta in
    if str_eq author ""
    then refused created_by_required
    else if not (mentions q.reason reasons)
    then refused unknown_reason
    else if is_zero d
    then refused zero_row
    else if str_eq q.reason "topup" && is_negative d
    then refused negative_topup
    else row (record {
      customer_id = q.customer_id;
      delta = d;
      reason = q.reason;
      session_id = q.session_id;
      balance_after = balance rows q.customer_id +ℤ d;
      created_by = author;
    })

-- `post`: the row to add, or the DomainError
unfoldable pub post : Ledger → Request → Posted
post rows q = elim q.created_by [
  | none ↦ refused created_by_required
  | some s ↦ post_by rows q (strip s)
]

abbrev pub added : Ledger → Posted → Ledger
added rows (refused e) = rows
added rows (row r) = r ∷ rows

-- the ledger behind a sequence of posts, the first post first
unfoldable pub run : Ledger → List Request → Ledger
run rows [] = rows
run rows (q ∷ qs) = run (added rows (post rows q)) qs
