-- ===== src/Credit/Chain.antt =====
-- The balance is the sum of the ledger, and a post changes one balance.
use erp_iot.Base.{
  ℕ, ◌≡◌, ◌≢◌, inl, inr, refl, String, true, false, List, [], ◌∷◌, arith, Bool-cases, Option-cases,
  ◌==◌, ==_iff, if◌then◌else◌, str_eq, eq_iff, ◌&&◌,
}
use erp_iot.Base.Int.{ℤ, pos, ◌+ℤ◌, ltb_ℤ, +ℤ_parts}
use erp_iot.Base.Text.{strip}
use erp_iot.Credit.{
  CreditRow, Ledger, Request, row, balance, last_row, quantize, is_zero, is_negative, post_by, post,
  added, run,
}

-- the deltas of one customer, added up
abbrev pub total : Ledger → ℕ → ℤ
total [] c = pos 0
total (r ∷ rows) c = if r.customer_id == c then total rows c +ℤ r.delta else total rows c

-- Every row: the balance behind it is the balance before it and its delta.
abbrev pub IsChained : Ledger → Type 0
IsChained [] = Unit {0}
IsChained (r ∷ rows) = (r.balance_after ≡ balance rows r.customer_id +ℤ r.delta) × IsChained rows

balance-cons :
    (r : CreditRow) (rows : Ledger) (c : ℕ)
    → balance (r ∷ rows) c ≡ (if r.customer_id == c then r.balance_after else balance rows c)
unfolding balance last_row
balance-cons r rows c = ground arith

balance_empty : (c : ℕ) → balance [] c ≡ pos 0
unfolding balance last_row
balance_empty c = refl

balance-total : (rows : Ledger) (c : ℕ) → IsChained rows → balance rows c ≡ total rows c
balance-total [] c h = balance_empty c
balance-total (r ∷ rows) c (e, h) = elim (Bool-cases (r.customer_id == c)) [
  | inl b ↦ ground (arith, balance-cons r rows c, balance-total rows c h, ==_iff r.customer_id c)
  | inr b ↦ ground (arith, balance-cons r rows c, balance-total rows c h)
]

post_by-IsChained :
    (rows : Ledger) (q : Request) (s : String)
    → IsChained rows
    → IsChained (added rows (post_by rows q s))
post_by-IsChained rows q s h = ground arith

post-IsChained :
    (rows : Ledger) (q : Request) → IsChained rows → IsChained (added rows (post rows q))
unfolding post
post-IsChained rows q h = elim (Option-cases q.created_by) [
  | inl e ↦ rw e h
  | inr (s, e) ↦ rw e (post_by-IsChained rows q (strip s) h)
]

run-IsChained : (rows : Ledger) (qs : List Request) → IsChained rows → IsChained (run rows qs)
unfolding run
run-IsChained rows [] h = h
run-IsChained rows (q ∷ qs) h =
    run-IsChained (added rows (post rows q)) qs (post-IsChained rows q h)

-- Whatever is posted to an empty ledger, with refusals in between, the balance of each customer is
-- the sum of the deltas of that customer's rows.
pub run-balance : (qs : List Request) (c : ℕ) → balance (run [] qs) c ≡ total (run [] qs) c
run-balance qs c = balance-total (run [] qs) c (run-IsChained [] qs tt)

-- What the row of an accepted post holds.
record IsAccepted (rows : Ledger) (q : Request) (r : CreditRow) : Type 0 where
  customer : r.customer_id ≡ q.customer_id
  delta : r.delta ≡ quantize q.delta
  after : r.balance_after ≡ balance rows q.customer_id +ℤ quantize q.delta
  nonzero : is_zero (quantize q.delta) ≡ false
  rising : (str_eq q.reason "topup" && is_negative (quantize q.delta)) ≡ false

post_by-IsAccepted :
    (rows : Ledger) (q : Request) (s : String) (r : CreditRow)
    → post_by rows q s ≡ row r
    → IsAccepted rows q r
post_by-IsAccepted rows q s r h = ground arith

post-IsAccepted :
    (rows : Ledger) (q : Request) (r : CreditRow) → post rows q ≡ row r → IsAccepted rows q r
unfolding post
post-IsAccepted rows q r h = elim (Option-cases q.created_by) [
  | inl e ↦ ground arith
  | inr (s, e) ↦ post_by-IsAccepted rows q (strip s) r (ground arith)
]

-- An accepted post moves the balance of its customer by its amount in whole cents, which is not
-- zero, and leaves the balance of every other customer alone.
pub post-balance :
    (rows : Ledger) (q : Request) (r : CreditRow) (c : ℕ)
    → post rows q ≡ row r
    → (balance (r ∷ rows) c
        ≡ (if q.customer_id == c then balance rows c +ℤ quantize q.delta else balance rows c))
      × (quantize q.delta ≢ pos 0)
post-balance rows q r c h =
    let a = post-IsAccepted rows q r h in
    (
      ground (
        arith,
        a.customer,
        a.after,
        balance-cons r rows c,
        ==_iff q.customer_id c,
        ==_iff r.customer_id c,
      ),
      λ z. ground (arith, a.nonzero, z),
    )

raised_by : (b d : ℤ) → is_zero d ≡ false → is_negative d ≡ false → ltb_ℤ b (b +ℤ d) ≡ true
raised_by b d z n = ground (arith, +ℤ_parts b d)

topup-nonnegative :
    (reason : String) (d : ℤ)
    → reason ≡ "topup"
    → (str_eq reason "topup" && is_negative d) ≡ false
    → is_negative d ≡ false
topup-nonnegative reason d t h = ground (arith, eq_iff reason "topup")

-- An accepted top-up raises the balance.
pub post_topup :
    (rows : Ledger) (q : Request) (r : CreditRow)
    → q.reason ≡ "topup"
    → post rows q ≡ row r
    → ltb_ℤ (balance rows q.customer_id) (balance (r ∷ rows) q.customer_id) ≡ true
post_topup rows q r t h =
    let a = post-IsAccepted rows q r h in
    let b = (post-balance rows q r q.customer_id h).0 in
    let n = topup-nonnegative q.reason (quantize q.delta) t a.rising in
    let e : balance (r ∷ rows) q.customer_id ≡ balance rows q.customer_id +ℤ quantize q.delta =
      ground (arith, b, ==_iff q.customer_id q.customer_id) in
    rw e (raised_by (balance rows q.customer_id) (quantize q.delta) a.nonzero n)
