-- ===== src/Webhooks/Closed.antt =====
-- backend/app/routers/webhooks.py: the receiver of a marina fails closed, and keeps to its marina.
use erp_iot.Base.{
  ℕ, String, ◌≡◌, ◌≢◌, ◌⊎◌, inl, inr, refl, Bool, true, false, Option, none, some, str_eq, eq_iff,
  Bool-cases, arith,
}
use erp_iot.Base.Time.{Time}
use erp_iot.Cabinet.SessionPayload.{Result, ok, raise}
use erp_iot.Webhooks.Tables.{Marina, Store}
use erp_iot.Webhooks.{Bytes, World, Request, Answer, signature_of, verify_signature}
use erp_iot.Webhooks.Authentic.{capped_lem}
use erp_iot.Webhooks.Legacy.{take_signed, take_secret, take_marina, marina_at, receive_webhook}

verify_signature_lem :
    (w : World) (secret : String) (body : Bytes) (header : String)
    → verify_signature w secret body header ≡ ok true
    → signature_of w secret body ≡ header
verify_signature_lem w secret body header h = (eq_iff _ _).0 (ground arith)

-- the secret of a marina, and its signature of the body in the header
pub record IsSigned (w : World) (req : Request) (m : Marina) : Type 0 where
  pub secret : String
  pub is_stored : m.webhook_secret ≡ some secret
  pub not_empty : secret ≢ ""
  pub signature_sent : signature_of w secret req.body ≡ req.x_webhook_signature

abbrev Outcome : World → Request → Store → Marina → Answer → Type 0
Outcome w req db m a = IsSigned w req m ⊎ (a.1 ≡ db)

take_signed-Outcome :
    (w : World) (lower : String → String) (req : Request) (now : Time) (db : Store) (m : Marina)
    (secret : String) (r : Result Bool)
    → m.webhook_secret ≡ some secret
    → secret ≢ ""
    → verify_signature w secret req.body req.x_webhook_signature ≡ r
    → Outcome w req db m (take_signed w m.id lower now req.body db r)
take_signed-Outcome w lower req now db m secret (raise e) s n h = inr refl
take_signed-Outcome w lower req now db m secret (ok false) s n h = inr refl
take_signed-Outcome w lower req now db m secret (ok true) s n h = inl (record {
  secret = secret;
  is_stored = s;
  not_empty = n;
  signature_sent = verify_signature_lem w secret req.body req.x_webhook_signature h;
})

take_secret-Outcome :
    (w : World) (lower : String → String) (req : Request) (now : Time) (db : Store) (m : Marina)
    (o : Option String)
    → m.webhook_secret ≡ o
    → Outcome w req db m (take_secret w m.id lower req now req.body db o)
take_secret-Outcome w lower req now db m none h = inr refl
take_secret-Outcome w lower req now db m (some secret) h = elim (Bool-cases (str_eq secret "")) [
  | inl blank ↦ rw blank (inr refl)
  | inr given ↦ elim (Bool-cases (str_eq req.x_webhook_signature "")) [
    | inl missing ↦ rw (given, missing) (inr refl)
    | inr there ↦
        rw (given, there)
          (take_signed-Outcome w lower req now db m secret _ h
            (λ e. absurd (ground (arith, (eq_iff secret "").1 e))) refl)
  ]
]

abbrev FailsClosed : World → ℕ → Request → Store → Answer → Type 0
FailsClosed w id req db a =
    ((m : Marina) × (marina_at id db ≡ some m) × IsSigned w req m) ⊎ (a.1 ≡ db)

take_marina-FailsClosed :
    (w : World) (lower : String → String) (id : ℕ) (req : Request) (now : Time) (db : Store)
    (o : Option Marina)
    → marina_at id db ≡ o
    → FailsClosed w id req db (take_marina w lower req now req.body db o)
take_marina-FailsClosed w lower id req now db none h = inr refl
take_marina-FailsClosed w lower id req now db (some m) h =
    elim (take_secret-Outcome w lower req now db m m.webhook_secret refl) [
      | inl good ↦ inl ((m, h, good))
      | inr same ↦ inr same
    ]

-- The receiver of a marina fails closed: either the marina is there, it has a secret that is not empty
-- and the header is the signature of the body by that secret, or nothing at all is written.
pub receive_webhook-closed :
    (w : World) (lower : String → String) (id : ℕ) (req : Request) (now : Time) (db : Store)
    → ((m : Marina) × (marina_at id db ≡ some m) × IsSigned w req m)
      ⊎ ((receive_webhook w lower id req now db).1 ≡ db)
unfolding receive_webhook
receive_webhook-closed w lower id req now db =
    capped_lem (FailsClosed w id req db) w req db _ (λ e. inr refl) (inr refl)
      (take_marina-FailsClosed w lower id req now db _ refl)
