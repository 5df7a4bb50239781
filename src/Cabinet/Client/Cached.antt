-- ===== src/Cabinet/Client/Cached.antt =====
-- When a call answers from the cache, and when it writes there.
use erp_iot.Base.{
  ◌≡◌, inl, inr, refl, sym, subst, ◌∙◌, ap, String, true, false, Option, none, some, arith,
  Bool-cases, if◌then◌else◌,
}
use erp_iot.Base.Json.{Json}
use erp_iot.Base.Time.{Time}
use erp_iot.Cabinet.Outcomes.{Outcome, json}
use erp_iot.Cabinet.Client.{
  World, Status, error, Client, Call, End, returned, exhausted, raised, logged, marked, retry,
  settle, given_up, finish, is_get, fetch, is_known_not_enabled, perform,
}
use erp_iot.Cabinet.Client.Careful.{is_stale_code, logged-cache, IsCarefulEnd, retry-IsCareful}

-- What a stale outcome says: a read, and the entry that the cache held for it.
pub record IsFromCache (call : Call) (c : Client) (o : Outcome) : Type 0 where
  pub value : Json
  pub at : Time
  pub is_read : is_get call.method ≡ true
  pub held_before : fetch call c.cache ≡ some (value, at)
  pub content : o.content ≡ some (json value)
  pub synced_at : o.synced_at ≡ some at
  pub is_marked : o.is_stale ≡ true

-- A finished call: a stale outcome is from the cache, and a write leaves the cache alone.
record IsSettled (call : Call) (c : Client) (r : Option Outcome × Client) : Type 0 where
  from_cache : (o : Outcome) → r.0 ≡ some o → is_stale_code o.code ≡ true → IsFromCache call c o
  unchanged : is_get call.method ≡ false → r.1.cache ≡ c.cache

settle-cache :
    (call : Call) (m : Option String) (c : Client) (entry : Option (Json × Time))
    → (settle call m c entry).1.cache ≡ c.cache
settle-cache call m c none = refl
settle-cache call m c (some entry) =
    logged-cache call Status.stale none (marked call Status.stale c)

given_up-cache :
    (call : Call) (m : Option String) (c : Client) → (given_up call m c).1.cache ≡ c.cache
unfolding given_up
given_up-cache call m c =
    settle-cache call m (logged call error m (marked call error c))
      (if is_get call.method then fetch call c.cache else none)
    ∙ logged-cache call error m (marked call error c)

settle-IsFromCache :
    (call : Call) (m : Option String) (c d : Client) (entry : Option (Json × Time))
    → is_get call.method ≡ true
    → fetch call c.cache ≡ entry
    → is_stale_code (settle call m d entry).0.code ≡ true
    → IsFromCache call c (settle call m d entry).0
settle-IsFromCache call m c d none g e h = ground arith
settle-IsFromCache call m c d (some (v, at)) g e h = record {
  value = v;
  at = at;
  is_read = g;
  held_before = e;
  content = refl;
  synced_at = refl;
  is_marked = refl;
}

given_up-IsFromCache :
    (call : Call) (m : Option String) (c : Client)
    → is_stale_code (given_up call m c).0.code ≡ true
    → IsFromCache call c (given_up call m c).0
unfolding given_up
given_up-IsFromCache call m c h = elim (Bool-cases (is_get call.method)) [
  | inl g ↦
      let d = logged call error m (marked call error c) in
      settle-IsFromCache call m c d (if is_get call.method then fetch call c.cache else none) g
        (rw g refl) h
  | inr g ↦ ground arith
]

IsFromCache-moved :
    (call : Call) (c d : Client) (o : Outcome)
    → d.cache ≡ c.cache
    → IsFromCache call d o
    → IsFromCache call c o
IsFromCache-moved call c d o e h = record {
  value = h.value;
  at = h.at;
  is_read = h.is_read;
  held_before = ap (fetch call) (sym e) ∙ h.held_before;
  content = h.content;
  synced_at = h.synced_at;
  is_marked = h.is_marked;
}

fresh-IsSettled :
    (call : Call) (c d : Client) (o : Outcome)
    → is_stale_code o.code ≡ false
    → (is_get call.method ≡ false → d.cache ≡ c.cache)
    → IsSettled call c (some o, d)
fresh-IsSettled call c d o f h = record { from_cache = λ o' e s. ground arith; unchanged = h }

finish-IsSettled :
    (call : Call) (c : Client) (r : End × Client)
    → IsCarefulEnd call c r
    → IsSettled call c (finish call r)
finish-IsSettled call c (returned o, d) (f, h) = fresh-IsSettled call c d o f h
finish-IsSettled call c (exhausted m, d) h = record {
  from_cache = λ o e s.
      let i : (given_up call m d).0 ≡ o = ground arith in
      subst (IsFromCache call c) i (
        IsFromCache-moved call c d (given_up call m d).0 h
          (given_up-IsFromCache call m d (ap (λ x. is_stale_code x.code) i ∙ s)));
  unchanged = λ p. given_up-cache call m d ∙ h;
}
finish-IsSettled call c (raised, d) h = record {
  from_cache = λ o e s. ground arith;
  unchanged = λ p. h;
}

perform-IsSettled : (w : World) (call : Call) (c : Client) → IsSettled call c (perform w call c)
unfolding perform
perform-IsSettled w call c = elim (Bool-cases (is_known_not_enabled c call.key (w.clock c.step))) [
  | inl e ↦ rw (e, perform) (fresh-IsSettled call c c _ refl (λ h. refl))
  | inr e ↦
      rw (e, perform)
        (finish-IsSettled call c (retry w call 3 none c) (retry-IsCareful w call 3 none c))
]

-- A call whose outcome has the code `stale` is a read, its content and its time are those that the
-- cache held for this call before it, and the outcome is marked as stale.
pub perform-stale :
    (w : World) (call : Call) (c : Client) (o : Outcome)
    → (perform w call c).0 ≡ some o
    → is_stale_code o.code ≡ true
    → IsFromCache call c o
perform-stale w call c o e h = (perform-IsSettled w call c).from_cache o e h

-- A POST never changes the cache, whatever the cabinet answers.
pub perform_post-cache :
    (w : World) (call : Call) (c : Client)
    → is_get call.method ≡ false
    → (perform w call c).1.cache ≡ c.cache
perform_post-cache w call c h = (perform-IsSettled w call c).unchanged h
