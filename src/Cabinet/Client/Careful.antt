-- ===== src/Cabinet/Client/Careful.antt =====
-- No pass of a call is stale, and only the answer to a read writes to the cache.
use erp_iot.Base.{
  ℕ, zero, suc, ◌≡◌, inl, inr, refl, ◌∙◌, String, Bool, true, false, Option, none, some, arith,
  Option-cases, Bool-cases, ◌==◌, leb, ltb, ◌&&◌,
}
use erp_iot.Base.Json.{Json}
use erp_iot.Base.Time.{Time}
use erp_iot.Cabinet.Outcomes
use erp_iot.Cabinet.Outcomes.{Outcome, Code, Content, json, bytes, classify_409, classify_400}
use erp_iot.Cabinet.Client.{
  World, Exchange, failed, answered, Reply, Status, success, error, Client, Call, Verdict, done,
  again, relogin, crashed, End, returned, exhausted, raised, Token, held, unreached, denied, broken,
  logged, marked, remember, succeeded, refused_by, block, prefixed, detail, content_of, stepped,
  handle, accept_token, access_token, cached_token, token_answer, token_asked, token_now,
  with_token, send, sent, slept, drop_token, round, continue, continue_relogged, retry,
  retry_relogged, is_get,
}

abbrev pub is_stale_code : Code → Bool
is_stale_code Outcomes.stale = true
is_stale_code _ = false

classify_409_fresh : (d : String) → is_stale_code (classify_409 d) ≡ false
unfolding classify_409
classify_409_fresh d = ground arith

classify_400_fresh : (d : String) → is_stale_code (classify_400 d) ≡ false
unfolding classify_400
classify_400_fresh d = ground arith

pub logged-cache :
    (call : Call) (s : Status) (m : Option String) (c : Client)
    → (logged call s m c).cache ≡ c.cache
unfolding logged
logged-cache call s m c = ground arith

-- No outcome of a pass is stale, and only the answer to a read changes the cache.
abbrev pub IsCareful : Call → Client → Verdict × Client → Type 0
IsCareful call c (done o, d) =
    (is_stale_code o.code ≡ false) × (is_get call.method ≡ false → d.cache ≡ c.cache)
IsCareful call c (_, d) = d.cache ≡ c.cache

remember_post :
    (call : Call) (v : Content) (now : Time) (d : Client)
    → is_get call.method ≡ false
    → (remember call v now d).cache ≡ d.cache
unfolding remember
remember_post call v now d h = ground arith

succeeded-IsCareful :
    (call : Call) (c : Client) (s : ℕ) (now : Time) (v : Content)
    → IsCareful call c (succeeded call s now c v)
unfolding succeeded
succeeded-IsCareful call c s now v = (
  refl,
  λ h. ground (
    arith,
    remember_post call v now (marked call success c) h,
    remember_post call v now (marked call success (logged call success none c)) h,
    logged-cache call success none c,
  ),
)

refused_by-IsCareful :
    (w : World) (call : Call) (c : Client) (now : Time) (r : Reply)
    → IsCareful call c (refused_by w call now r c)
unfolding refused_by
refused_by-IsCareful w call c now r = ground (
  arith,
  classify_409_fresh (detail w r),
  classify_400_fresh (detail w r),
  logged-cache call error (prefixed "403" (detail w r)) (marked call error (block call now c)),
  logged-cache call error (prefixed "422" (detail w r)) (marked call error c),
)

handle-IsCareful :
    (w : World) (call : Call) (c : Client) (now : Time) (r : Reply)
    → IsCareful call c (handle w call now r c)
unfolding handle
handle-IsCareful w call c now r = elim (Bool-cases (leb 200 r.status && ltb r.status 300)) [
  | inl b ↦ rw b (elim (Option-cases (content_of r)) [
    | inl e ↦ rw e refl
    | inr (v, e) ↦ rw e (succeeded-IsCareful call c r.status now v)
  ])
  | inr b ↦ rw b (refused_by-IsCareful w call c now r)
]

accept_token-cache :
    (w : World) (now : Time) (c : Client) (t : Option Json)
    → (accept_token w now c t).1.cache ≡ c.cache
accept_token-cache w now c none = refl
accept_token-cache w now c (some t) = ground arith

token_answer-cache :
    (w : World) (now : Time) (c : Client) (x : Exchange)
    → (token_answer w now c x).1.cache ≡ c.cache
token_answer-cache w now c (failed e) = refl
token_answer-cache w now c (answered r) = elim (Bool-cases (r.status == 200)) [
  | inl e ↦ rw e (accept_token-cache w now c (access_token r.parsed))
  | inr e ↦ rw e refl
]

token_now-cache : (w : World) (now : Time) (c : Client) → (token_now w now c).1.cache ≡ c.cache
unfolding token_now
token_now-cache w now c = elim (Option-cases (cached_token now c)) [
  | inl e ↦ rw (e, token_now) (token_answer-cache w now (token_asked c) (w.token_reply c.step))
  | inr (t, e) ↦ rw (e, token_now) refl
]

-- A pass from a client with the same cache, and the count of the steps, leave it careful.
IsCareful-from :
    (call : Call) (c c' : Client) (r : Verdict × Client)
    → c'.cache ≡ c.cache
    → IsCareful call c' r
    → IsCareful call c (stepped r)
IsCareful-from call c c' (done o, d) e (f, h) = (f, λ p. h p ∙ e)
IsCareful-from call c c' (again m, d) e h = h ∙ e
IsCareful-from call c c' (relogin m, d) e h = h ∙ e
IsCareful-from call c c' (crashed, d) e h = h ∙ e

send-IsCareful :
    (w : World) (call : Call) (now : Time) (c : Client) (x : Exchange)
    → IsCareful call c (send w call now (sent c) x)
send-IsCareful w call now c (failed e) = refl
send-IsCareful w call now c (answered r) =
    IsCareful-unsent (handle w call now r (sent c)) (handle-IsCareful w call (sent c) now r)
  where
    IsCareful-unsent : (r : Verdict × Client) → IsCareful call (sent c) r → IsCareful call c r
    IsCareful-unsent (done o, d) h = h
    IsCareful-unsent (again m, d) h = h
    IsCareful-unsent (relogin m, d) h = h
    IsCareful-unsent (crashed, d) h = h

with_token-IsCareful :
    (w : World) (call : Call) (now : Time) (t : Token) (c : Client)
    → IsCareful call c (with_token w call now t c)
with_token-IsCareful w call now (held t) c = send-IsCareful w call now c (w.reply c.step)
with_token-IsCareful w call now (unreached e) c = refl
with_token-IsCareful w call now denied c =
    (refl, λ h. logged-cache call error (some "service-token refused") (marked call error c))
with_token-IsCareful w call now broken c = refl

round-IsCareful : (w : World) (call : Call) (c : Client) → IsCareful call c (round w call c)
unfolding round
round-IsCareful w call c =
    let now = w.clock c.step in
    let (t, c') = token_now w now c in
    IsCareful-from call c c' (with_token w call now t c') (token_now-cache w now c)
      (with_token-IsCareful w call now t c')

-- The same of the end of a loop.
abbrev pub IsCarefulEnd : Call → Client → End × Client → Type 0
IsCarefulEnd call c (returned o, d) =
    (is_stale_code o.code ≡ false) × (is_get call.method ≡ false → d.cache ≡ c.cache)
IsCarefulEnd call c (_, d) = d.cache ≡ c.cache

IsCarefulEnd-from :
    (call : Call) (c c' : Client) (r : End × Client)
    → c'.cache ≡ c.cache
    → IsCarefulEnd call c' r
    → IsCarefulEnd call c r
IsCarefulEnd-from call c c' (returned o, d) e (f, h) = (f, λ p. h p ∙ e)
IsCarefulEnd-from call c c' (exhausted m, d) e h = h ∙ e
IsCarefulEnd-from call c c' (raised, d) e h = h ∙ e

slept-cache : (left : ℕ) (c : Client) → (slept left c).cache ≡ c.cache
slept-cache zero c = refl
slept-cache (suc left) c = refl

continue_relogged-IsCareful :
    (call : Call) (left : ℕ) (rest : Option String → Client → End × Client) (c : Client)
    (r : Verdict × Client)
    → ((e : Option String) (c' : Client) → IsCarefulEnd call c' (rest e c'))
    → IsCareful call c r
    → IsCarefulEnd call c (continue_relogged call left rest r)
continue_relogged-IsCareful call left rest c (done o, d) h k = k
continue_relogged-IsCareful call left rest c (again e, d) h k =
    IsCarefulEnd-from call c (slept left d) (rest (some e) (slept left d)) (slept-cache left d ∙ k)
      (h (some e) (slept left d))
continue_relogged-IsCareful call left rest c (relogin m, d) h k =
    (refl, λ p. logged-cache call error (prefixed "401" m) (marked call error d) ∙ k)
continue_relogged-IsCareful call left rest c (crashed, d) h k = k

retry_relogged-IsCareful :
    (w : World) (call : Call) (left : ℕ) (m : Option String) (c : Client)
    → IsCarefulEnd call c (retry_relogged w call left m c)
unfolding retry_relogged
retry_relogged-IsCareful w call zero m c = refl
retry_relogged-IsCareful w call (suc left) m c =
    continue_relogged-IsCareful call left (λ e c'. retry_relogged w call left e c') c
      (round w call c) (λ e c'. retry_relogged-IsCareful w call left e c')
      (round-IsCareful w call c)

continue-IsCareful :
    (call : Call) (left : ℕ) (rest : Option String → Client → End × Client)
    (relogged : Client → End × Client) (c : Client) (r : Verdict × Client)
    → ((e : Option String) (c' : Client) → IsCarefulEnd call c' (rest e c'))
    → ((c' : Client) → IsCarefulEnd call c' (relogged c'))
    → IsCareful call c r
    → IsCarefulEnd call c (continue left rest relogged r)
continue-IsCareful call left rest relogged c (done o, d) h j k = k
continue-IsCareful call left rest relogged c (again e, d) h j k =
    IsCarefulEnd-from call c (slept left d) (rest (some e) (slept left d)) (slept-cache left d ∙ k)
      (h (some e) (slept left d))
continue-IsCareful call left rest relogged c (relogin m, d) h j k =
    IsCarefulEnd-from call c (drop_token d) (relogged (drop_token d)) k (j (drop_token d))
continue-IsCareful call left rest relogged c (crashed, d) h j k = k

pub retry-IsCareful :
    (w : World) (call : Call) (left : ℕ) (m : Option String) (c : Client)
    → IsCarefulEnd call c (retry w call left m c)
unfolding retry
retry-IsCareful w call zero m c = refl
retry-IsCareful w call (suc left) m c =
    continue-IsCareful call left (λ e c'. retry w call left e c')
      (retry_relogged w call (suc left) m) c (round w call c)
      (λ e c'. retry-IsCareful w call left e c')
      (λ c'. retry_relogged-IsCareful w call (suc left) m c') (round-IsCareful w call c)
