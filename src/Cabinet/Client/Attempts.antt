-- ===== src/Cabinet/Client/Attempts.antt =====
-- How often a call asks the cabinet, and how long it waits.
use erp_iot.Base.{
  if◌then◌else◌, ◌∙◌, Bool-cases, ◌==◌, Option-cases, String, ℕ, zero, suc, ◌+◌, ◌*◌, ◌≤◌, ◌≡◌, ◌⊎◌,
  inl, inr, refl, Option, none, some, List, ◌∷◌, arith,
}
use erp_iot.Base.Json.{Json, truthy}
use erp_iot.Base.Time.{Time}
use erp_iot.Cabinet.Outcomes.{Content}
use erp_iot.Cabinet.Client.{
  settle, is_get, fetch, is_known_not_enabled, returned, exhausted, raised, continue,
  continue_relogged, given_up, finish, accept_token, access_token, cached_token, token_answer,
  token_asked, Token, held, unreached, denied, broken, with_token, send, sent, slept, backoff,
  drop_token, Status, success, error, logged, marked, remember, succeeded, refused_by, block,
  prefixed, detail, content_of, World, Exchange, failed, answered, Reply, Client, Call, Verdict,
  done, again, relogin, crashed, End, handle, token_now, round, retry, retry_relogged, perform,
}

-- What a step leaves alone: at most `asked` requests were sent, and nothing was slept.
pub record Keeps (asked : ℕ) (c d : Client) : Type 0 where
  pub requests : d.requests ≤ c.requests + asked
  pub waits : d.waits ≡ c.waits

logged-Keeps :
    (call : Call) (s : Status) (m : Option String) (c : Client) → Keeps 0 c (logged call s m c)
unfolding logged
logged-Keeps call s m c = ground arith

remember-Keeps :
    (call : Call) (v : Content) (now : Time) (c : Client) → Keeps 0 c (remember call v now c)
unfolding remember
remember-Keeps call v now c = ground arith

succeeded-Keeps :
    (call : Call) (s : ℕ) (now : Time) (c : Client) (v : Content)
    → Keeps 0 c (succeeded call s now c v).1
unfolding succeeded
succeeded-Keeps call s now c v = ground (
  arith,
  remember-Keeps call v now (marked call success c),
  remember-Keeps call v now (marked call success (logged call success none c)),
  logged-Keeps call success none c,
)

refused_by-Keeps :
    (w : World) (call : Call) (now : Time) (r : Reply) (c : Client)
    → Keeps 0 c (refused_by w call now r c).1
unfolding refused_by
refused_by-Keeps w call now r c = ground (
  arith,
  logged-Keeps call error (prefixed "403" (detail w r)) (marked call error (block call now c)),
  logged-Keeps call error (prefixed "422" (detail w r)) (marked call error c),
)

handle-Keeps :
    (w : World) (call : Call) (now : Time) (r : Reply) (c : Client)
    → Keeps 0 c (handle w call now r c).1
unfolding handle
handle-Keeps w call now r c = elim (Option-cases (content_of r)) [
  | inl e ↦ rw e (ground (arith, refused_by-Keeps w call now r c))
  | inr (v, e) ↦
      rw e (ground (arith, refused_by-Keeps w call now r c, succeeded-Keeps call r.status now c v))
]

accept_token-Keeps :
    (w : World) (now : Time) (c : Client) (t : Option Json) → Keeps 0 c (accept_token w now c t).1
accept_token-Keeps w now c none = ground arith
accept_token-Keeps w now c (some t) = elim (Bool-cases (truthy t)) [
  | inl e ↦ rw e (ground arith)
  | inr e ↦ rw e (ground arith)
]

token_answer-Keeps :
    (w : World) (now : Time) (c : Client) (x : Exchange) → Keeps 0 c (token_answer w now c x).1
token_answer-Keeps w now c (failed e) = ground arith
token_answer-Keeps w now c (answered r) = elim (Bool-cases (r.status == 200)) [
  | inl e ↦ rw e (accept_token-Keeps w now c (access_token r.parsed))
  | inr e ↦ rw e (ground arith)
]

token_now-Keeps : (w : World) (now : Time) (c : Client) → Keeps 1 c (token_now w now c).1
unfolding token_now
token_now-Keeps w now c = elim (Option-cases (cached_token now c)) [
  | inl e ↦
      rw (e, token_now)
        (let k = token_answer-Keeps w now (token_asked c) (w.token_reply c.step) in
          record { requests = omega (arith, k.requests); waits = k.waits })
  | inr (t, e) ↦ rw (e, token_now) (ground arith)
]

with_token-Keeps :
    (w : World) (call : Call) (now : Time) (t : Token) (c : Client)
    → Keeps 1 c (with_token w call now t c).1
with_token-Keeps w call now (held t) c = send-Keeps (w.reply c.step)
  where
    send-Keeps : (x : Exchange) → Keeps 1 c (send w call now (sent c) x).1
    send-Keeps (failed e) = ground arith
    send-Keeps (answered r) = ground (arith, handle-Keeps w call now r (sent c))
with_token-Keeps w call now (unreached e) c = ground arith
with_token-Keeps w call now denied c =
    ground (arith, logged-Keeps call error (some "service-token refused") (marked call error c))
with_token-Keeps w call now broken c = ground arith

round-Keeps : (w : World) (call : Call) (c : Client) → Keeps 2 c (round w call c).1
unfolding round
round-Keeps w call c =
    let now = w.clock c.step in
    let (t, c') = token_now w now c in
    ground (arith, token_now-Keeps w now c, with_token-Keeps w call now t c')

-- The sleeps of a loop that has `left` attempts: after each failed attempt but the last.
abbrev pub Slept : ℕ → List ℕ → List ℕ → Type 0
Slept zero ws ws' = ws' ≡ ws
Slept (suc zero) ws ws' = ws' ≡ ws
Slept (suc (suc left)) ws ws' = (ws' ≡ ws) ⊎ Slept (suc left) (backoff (suc left) ∷ ws) ws'

Slept-none : (left : ℕ) (ws ws' : List ℕ) → ws' ≡ ws → Slept left ws ws'
Slept-none zero ws ws' e = e
Slept-none (suc zero) ws ws' e = e
Slept-none (suc (suc left)) ws ws' e = inl e

Slept-slept :
    (left : ℕ) (c : Client) (ws : List ℕ)
    → Slept left (slept left c).waits ws
    → Slept (suc left) c.waits ws
Slept-slept zero c ws h = h
Slept-slept (suc left) c ws h = inr h

-- At most two requests for each of `left` attempts and `extra` more, and the sleeps of `left` attempts.
record IsBounded (extra left : ℕ) (c d : Client) : Type 0 where
  asked : d.requests ≤ c.requests + 2 * (left + extra)
  slept_for : Slept left c.waits d.waits

slept-requests : (left : ℕ) (c : Client) → (slept left c).requests ≡ c.requests
slept-requests zero c = refl
slept-requests (suc left) c = refl

-- One more failed attempt in front of the rest of the loop.
IsBounded-again :
    (extra left : ℕ) (c c' d : Client)
    → Keeps 2 c c'
    → IsBounded extra left (slept left c') d
    → IsBounded extra (suc left) c d
IsBounded-again extra left c c' d k b = record {
  asked = omega (arith, k.requests, b.asked, slept-requests left c');
  slept_for = rw (← k.waits) (Slept-slept left c' d.waits b.slept_for);
}

IsBounded-last : (extra left : ℕ) (c d : Client) → Keeps 2 c d → IsBounded extra (suc left) c d
IsBounded-last extra left c d k = record {
  asked = omega (arith, k.requests);
  slept_for = Slept-none (suc left) c.waits d.waits k.waits;
}

continue_relogged-IsBounded :
    (call : Call) (left : ℕ) (rest : Option String → Client → End × Client) (c : Client)
    (r : Verdict × Client)
    → ((e : Option String) (c' : Client) → IsBounded 0 left c' (rest e c').1)
    → Keeps 2 c r.1
    → IsBounded 0 (suc left) c (continue_relogged call left rest r).1
continue_relogged-IsBounded call left rest c (done o, c') h k = IsBounded-last 0 left c c' k
continue_relogged-IsBounded call left rest c (again e, c') h k =
    IsBounded-again 0 left c c' _ k (h (some e) (slept left c'))
continue_relogged-IsBounded call left rest c (relogin d, c') h k =
    let l = logged-Keeps call error (prefixed "401" d) (marked call error c') in
    IsBounded-last 0 left c _
      (record { requests = omega (arith, l.requests, k.requests); waits = l.waits ∙ k.waits })
continue_relogged-IsBounded call left rest c (crashed, c') h k = IsBounded-last 0 left c c' k

retry_relogged-IsBounded :
    (w : World) (call : Call) (left : ℕ) (m : Option String) (c : Client)
    → IsBounded 0 left c (retry_relogged w call left m c).1
unfolding retry_relogged
retry_relogged-IsBounded w call zero m c = record { asked = omega arith; slept_for = refl }
retry_relogged-IsBounded w call (suc left) m c =
    continue_relogged-IsBounded call left (λ e c'. retry_relogged w call left e c') c
      (round w call c) (λ e c'. retry_relogged-IsBounded w call left e c') (round-Keeps w call c)

continue-IsBounded :
    (left : ℕ) (rest : Option String → Client → End × Client) (relogged : Client → End × Client)
    (c : Client) (r : Verdict × Client)
    → ((e : Option String) (c' : Client) → IsBounded 1 left c' (rest e c').1)
    → ((c' : Client) → IsBounded 0 (suc left) c' (relogged c').1)
    → Keeps 2 c r.1
    → IsBounded 1 (suc left) c (continue left rest relogged r).1
continue-IsBounded left rest relogged c (done o, c') h j k = IsBounded-last 1 left c c' k
continue-IsBounded left rest relogged c (again e, c') h j k =
    IsBounded-again 1 left c c' _ k (h (some e) (slept left c'))
continue-IsBounded left rest relogged c (relogin d, c') h j k =
    let b = j (drop_token c') in
    record { asked = omega (arith, b.asked, k.requests); slept_for = rw (← k.waits) b.slept_for }
continue-IsBounded left rest relogged c (crashed, c') h j k = IsBounded-last 1 left c c' k

retry-IsBounded :
    (w : World) (call : Call) (left : ℕ) (m : Option String) (c : Client)
    → IsBounded 1 left c (retry w call left m c).1
unfolding retry
retry-IsBounded w call zero m c = record { asked = omega arith; slept_for = refl }
retry-IsBounded w call (suc left) m c =
    continue-IsBounded left (λ e c'. retry w call left e c') (retry_relogged w call (suc left) m) c
      (round w call c) (λ e c'. retry-IsBounded w call left e c')
      (λ c'. retry_relogged-IsBounded w call (suc left) m c') (round-Keeps w call c)

settle-Keeps :
    (call : Call) (m : Option String) (c : Client) (entry : Option (Json × Time))
    → Keeps 0 c (settle call m c entry).1
settle-Keeps call m c none = ground arith
settle-Keeps call m c (some entry) =
    let l = logged-Keeps call Status.stale none (marked call Status.stale c) in
    record { requests = l.requests; waits = l.waits }

given_up-Keeps : (call : Call) (m : Option String) (c : Client) → Keeps 0 c (given_up call m c).1
unfolding given_up
given_up-Keeps call m c =
    let d = logged call error m (marked call error c) in
    let l = logged-Keeps call error m (marked call error c) in
    let k = settle-Keeps call m d (if is_get call.method then fetch call c.cache else none) in
    record { requests = omega (arith, l.requests, k.requests); waits = k.waits ∙ l.waits }

finish-IsBounded :
    (call : Call) (c : Client) (r : End × Client)
    → IsBounded 1 3 c r.1
    → IsBounded 1 3 c (finish call r).1
finish-IsBounded call c (returned o, d) b = b
finish-IsBounded call c (exhausted m, d) b =
    let k = given_up-Keeps call m d in
    record { asked = omega (arith, k.requests, b.asked); slept_for = rw k.waits b.slept_for }
finish-IsBounded call c (raised, d) b = b

perform-IsBounded : (w : World) (call : Call) (c : Client) → IsBounded 1 3 c (perform w call c).1
unfolding perform
perform-IsBounded w call c = elim (Bool-cases (is_known_not_enabled c call.key (w.clock c.step))) [
  | inl e ↦ rw (e, perform) (record { asked = omega arith; slept_for = inl refl })
  | inr e ↦
      rw (e, perform)
        (finish-IsBounded call c (retry w call 3 none c) (retry-IsBounded w call 3 none c))
]

-- Whatever the cabinet answers, one call sends it at most eight requests (in each of three attempts and
-- of one more after a new sign-in, one for a service token and one to the endpoint), and it sleeps
-- not at all, or one second, or one second and then two.
pub perform_bounds :
    (w : World) (call : Call) (c : Client)
    → let d = (perform w call c).1 in
      (d.requests ≤ c.requests + 8)
      × ((d.waits ≡ c.waits) ⊎ ((d.waits ≡ 1 ∷ c.waits) ⊎ (d.waits ≡ 2 ∷ 1 ∷ c.waits)))
perform_bounds w call c =
    let b = perform-IsBounded w call c in (omega (arith, b.asked), b.slept_for)
