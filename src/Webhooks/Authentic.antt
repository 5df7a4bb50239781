-- ===== src/Webhooks/Authentic.antt =====
-- backend/app/routers/webhooks.py: who can write through the receiver of a cabinet.
use erp_iot.Base.{
  ℕ, String, ◌≡◌, ◌≢◌, ◌⊎◌, inl, inr, refl, sym, ap, ◌∙◌, subst, Bool, true, false, Option, none,
  some, List, eq_iff, if◌then◌else◌, Bool-cases, Option-cases, arith, ltb, length, first, ◌==◌,
  some-injective,
}
use erp_iot.Base.Time.{Time}
use erp_iot.Cabinet.SessionPayload.{Exception, Result, ok, raise, ok-injective, ◌>>=◌}
use erp_iot.Webhooks.Tables.{Sender, AlarmLog, Store}
use erp_iot.Webhooks.{
  Bytes, World, Request, Reply, raised, Answer, too_large, declares_too_much, signature_of, capped,
}
use erp_iot.Webhooks.Receive.{
  refusal, sender_at, stored_key, or_no_key, has_key_of, secret_of, signed_by, is_signed, if_signed,
  vouched, authenticated, record_decoy, answer_to, receive_cabinet_webhook,
}

-- whatever a handler behind the limit of the body gives
pub capped_lem {ℓ} :
    (P : Answer → Type ℓ) (w : World) (req : Request) (db : Store) (rest : Bytes → Answer)
    → ((e : Exception) → P (raised e, db))
    → P (too_large, db)
    → P (rest req.body)
    → P (capped w req db rest)
unfolding capped
capped_lem P w req db rest failed large good =
    elim (declares_too_much w req.content_length)
      as (λ r. P (elim r [
        | raise e ↦ (raised e, db)
        | ok true ↦ (too_large, db)
        | ok false ↦
            if ltb w.webhook_max_body_bytes (length req.body)
            then (too_large, db)
            else rest req.body
      ])) [
        | raise e ↦ failed e
        | ok true ↦ large
        | ok false ↦
            elim (ltb w.webhook_max_body_bytes (length req.body))
              as (λ b. P (if b then (too_large, db) else rest req.body)) [
                | true ↦ large
                | false ↦ good
              ]
      ]

-- what the sender must know: the key of the cabinet, and its secret where the switch is on
pub record IsAuthentic (w : World) (req : Request) (c : Sender) : Type 0 where
  pub key : String
  pub is_stored : stored_key w (some c) ≡ some key
  pub key_sent : or_no_key (some key) ≡ req.x_api_key
  pub key_given : req.x_api_key ≢ ""
  pub signature_sent :
      c.webhook_hmac ≡ true
      → (secret : String) × (secret_of w c.webhook_secret_enc ≡ ok (some secret))
        × (signature_of w secret req.body ≡ req.x_webhook_signature)

pub Result-cases {ℓ} :
    {A : Type ℓ} (r : Result A) → ((e : Exception) × (r ≡ raise e)) ⊎ ((a : A) × (r ≡ ok a))
Result-cases (raise e) = inl (e, refl)
Result-cases (ok a) = inr (a, refl)

signed_lem :
    (w : World) (req : Request) (o : Option String)
    → signed_by w o req.body req.x_webhook_signature ≡ ok true
    → (secret : String) × (o ≡ some secret)
      × (signature_of w secret req.body ≡ req.x_webhook_signature)
signed_lem w req none h = absurd (ground arith)
signed_lem w req (some secret) h = (secret, refl, (eq_iff _ _).0 (ground arith))

is_signed_lem :
    (w : World) (req : Request) (c : Sender)
    → is_signed w c req.body req.x_webhook_signature ≡ ok true
    → c.webhook_hmac ≡ true
    → (secret : String) × (secret_of w c.webhook_secret_enc ≡ ok (some secret))
      × (signature_of w secret req.body ≡ req.x_webhook_signature)
is_signed_lem w req c h on = elim (Result-cases (secret_of w c.webhook_secret_enc)) [
  | inl (e, failed) ↦ absurd (ground arith)
  | inr (o, read) ↦
      let (secret, is, sent) = signed_lem w req o (ground arith) in
      (secret, read ∙ ap (λ z. ok z) is, sent)
]

has_key_of_lem :
    (w : World) (req : Request) (c : Sender)
    → has_key_of w (some c) req.x_api_key ≡ true
    → (key : String) × (stored_key w (some c) ≡ some key)
      × (or_no_key (some key) ≡ req.x_api_key)
      × (req.x_api_key ≢ "")
has_key_of_lem w req c h = elim (Option-cases (stored_key w (some c))) [
  | inl missing ↦ absurd (ground arith)
  | inr (key, there) ↦ (
    key,
    there,
    (eq_iff _ _).0 (ground (arith, there)),
    λ blank. absurd (ground (arith, (eq_iff req.x_api_key "").1 blank)),
  )
]

vouched-key :
    (w : World) (req : Request) (c : Sender)
    → has_key_of w (some c) req.x_api_key ≡ true
    → vouched w (some c) req req.body ≡ if_signed w (some c) req req.body
vouched-key w req c t = rw t refl

signed_sender :
    (c' c : Sender) (r : Result Bool)
    → (r >>= λ good. ok (if good then some c' else none)) ≡ ok (some c)
    → (c' ≡ c) × (r ≡ ok true)
signed_sender c' c (raise e) h = absurd (ground arith)
signed_sender c' c (ok true) h = (some-injective (ok-injective h), refl)
signed_sender c' c (ok false) h = absurd (ground arith)

vouched_lem :
    (w : World) (req : Request) (o : Option Sender) (c : Sender)
    → vouched w o req req.body ≡ ok (some c)
    → (o ≡ some c) × IsAuthentic w req c
vouched_lem w req none c h = absurd (ground arith)
vouched_lem w req (some c') c h = elim (Bool-cases (has_key_of w (some c') req.x_api_key)) [
  | inr f ↦ absurd (ground arith)
  | inl t ↦
      let (key, is_stored, key_sent, key_given) = has_key_of_lem w req c' t in
      let (same, good) =
        signed_sender c' c (is_signed w c' req.body req.x_webhook_signature)
          (sym (vouched-key w req c' t) ∙ h) in
      (
        ap (λ z. some z) same,
        subst (IsAuthentic w req) same (record {
          key = key;
          is_stored = is_stored;
          key_sent = key_sent;
          key_given = key_given;
          signature_sent = is_signed_lem w req c' good;
        }),
      )
]

pub authenticated_lem :
    (w : World) (db : Store) (id : ℕ) (req : Request) (c : Sender)
    → authenticated w db id req req.body ≡ ok (some c)
    → (sender_at id db ≡ some c) × IsAuthentic w req c
unfolding authenticated
authenticated_lem w db id req c h = vouched_lem w req (sender_at id db) c h

-- a refusal, of which there are two, or an exception
abbrev pub IsRefused : Reply → Type 0
IsRefused r = (r ≡ refusal) ⊎ ((r ≡ too_large) ⊎ ((e : Exception) × (r ≡ raised e)))

-- what only an authenticated cabinet can change
abbrev pub SameLogs : Store → Store → Type 0
SameLogs db db' =
    (db'.erp ≡ db.erp)
    × (db'.alarm_log ≡ db.alarm_log)
    × (db'.session_log ≡ db.session_log)
    × (db'.sync_log ≡ db.sync_log)
    × (db'.pedestal_cache ≡ db.pedestal_cache)

pub record_decoy-SameLogs :
    (w : World) (key : String) (now : Time) (db : Store) → SameLogs db (record_decoy w key now db)
unfolding record_decoy
record_decoy-SameLogs w key now db = ground arith

pub record_decoy-senders :
    (w : World) (key : String) (now : Time) (db : Store)
    → (record_decoy w key now db).senders ≡ db.senders
unfolding record_decoy
record_decoy-senders w key now db = ground arith

abbrev pub Outcome : World → ℕ → Request → Store → Answer → Type 0
Outcome w id req db (reply, db') =
    ((c : Sender) × (sender_at id db ≡ some c) × IsAuthentic w req c)
    ⊎ (IsRefused reply × SameLogs db db')

answer_to-Outcome :
    (w : World) (id : ℕ) (between : List AlarmLog) (req : Request) (now : Time) (db db₀ : Store)
    (r : Result (Option Sender))
    → authenticated w db id req req.body ≡ r
    → db.senders ≡ db₀.senders
    → SameLogs db₀ db
    → Outcome w id req db₀ (answer_to w between now req.body db r)
answer_to-Outcome w id between req now db db₀ (raise e) h senders same =
    inr ((inr (inr (e, refl)), same))
answer_to-Outcome w id between req now db db₀ (ok none) h senders same = inr ((inl refl, same))
answer_to-Outcome w id between req now db db₀ (ok (some c)) h senders same =
    let (there, good) = authenticated_lem w db id req c h in
    inl ((c, ap (first (λ s. s.id == id)) (sym senders) ∙ there, good))

-- Only an authenticated cabinet writes: either the cabinet of the address is there, the header holds
-- the key that is stored for it (in place of an empty stored key a fixed text with NULs), which is not
-- empty, and the signature is that of its secret where its switch is on; or the answer is the one
-- refusal, the refusal of a large body or an exception, and the sessions, the alarms, the logs and the
-- cache stay as they were.
pub receive_cabinet_webhook-IsAuthentic :
    (w : World) (id : ℕ) (between : List AlarmLog) (req : Request) (now : Time) (db : Store)
    → let (reply, db') = receive_cabinet_webhook w id between req now db in
      ((c : Sender) × (sender_at id db ≡ some c) × IsAuthentic w req c)
      ⊎ (IsRefused reply × SameLogs db db')
unfolding receive_cabinet_webhook
receive_cabinet_webhook-IsAuthentic w id between req now db =
    capped_lem (Outcome w id req db) w req db _
      (λ e. inr ((inr (inr (e, refl)), (refl, refl, refl, refl, refl))))
      (inr ((inr (inl refl), (refl, refl, refl, refl, refl))))
      (answer_to-Outcome w id between req now (record_decoy w req.x_api_key now db) db _ refl
        (record_decoy-senders w req.x_api_key now db)
        (record_decoy-SameLogs w req.x_api_key now db))
