-- ===== src/Cabinet/SessionPayload/Prices.antt =====
-- Price fields are dropped before anything is read.
use erp_iot.Base.{zero, suc, ℕ, ◌≡◌, refl, String, true, List, [], ◌∷◌, ◌++◌, ap, sym, ◌∙◌}
use erp_iot.Base.Json.{Json, Dict, mentions, keys}
use erp_iot.Cabinet.SessionPayload.{
  ParsedSession, Finding, price_field_dropped, Result, ok, raise, ◌>>=◌, price_keys, without_prices,
  dropped_prices, price_findings, with_dropped, parse_dict,
}

without_prices-price :
    (xs ys : Dict) (k : String) (v : Json)
    → mentions k price_keys ≡ true
    → without_prices (xs ++ (k, v) ∷ ys) ≡ without_prices (xs ++ ys)
unfolding without_prices
without_prices-price [] ys k v h = rw h
without_prices-price (x ∷ xs) ys k v h = rw (without_prices-price xs ys k v h)

keys-append_value :
    (xs ys : Dict) (k : String) (v w : Json) → keys (xs ++ (k, v) ∷ ys) ≡ keys (xs ++ (k, w) ∷ ys)
keys-append_value [] ys k v w = refl
keys-append_value (x ∷ xs) ys k v w = ap (λ l. x.0 ∷ l) (keys-append_value xs ys k v w)

-- the findings but for those about prices
abbrev pub unpriced : List Finding → List Finding
unpriced [] = []
unpriced (price_field_dropped n ∷ fs) = unpriced fs
unpriced (f ∷ fs) = f ∷ unpriced fs

abbrev pub without_price_findings : Result ParsedSession → Result ParsedSession
without_price_findings r = r >>= λ p. ok (record p { findings = unpriced p.findings })

unpriced-price_findings :
    (n : ℕ) (fs : List Finding) → unpriced (price_findings n ++ fs) ≡ unpriced fs
unpriced-price_findings zero fs = refl
unpriced-price_findings (suc n) fs = refl

without_price_findings-with_dropped :
    (n m : ℕ) (r : Result ParsedSession)
    → without_price_findings (r >>= λ p. ok (with_dropped n p))
      ≡ without_price_findings (r >>= λ p. ok (with_dropped m p))
without_price_findings-with_dropped n m (ok p) =
    ap (λ fs. ok (record p { findings = fs }))
      (unpriced-price_findings n p.findings ∙ sym (unpriced-price_findings m p.findings))
without_price_findings-with_dropped n m (raise e) = refl

-- A price is not there for the parser: a price field anywhere in the payload changes the result in
-- nothing but the finding that counts such fields, and that finding does not depend on its value.
pub parse_dict-price :
    (xs ys : Dict) (k : String) (v w : Json)
    → mentions k price_keys ≡ true
    → (without_price_findings (parse_dict (xs ++ (k, v) ∷ ys))
        ≡ without_price_findings (parse_dict (xs ++ ys)))
      × (parse_dict (xs ++ (k, v) ∷ ys) ≡ parse_dict (xs ++ (k, w) ∷ ys))
unfolding parse_dict dropped_prices
parse_dict-price xs ys k v w h = (
  rw (without_prices-price xs ys k v h) (without_price_findings-with_dropped _ _ _),
  rw (
    without_prices-price xs ys k v h,
    without_prices-price xs ys k w h,
    keys-append_value xs ys k v w,
  ),
)
