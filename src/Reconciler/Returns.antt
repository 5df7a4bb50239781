-- ===== src/Reconciler/Returns.antt =====
-- backend/app/services/reconciler.py: a run returns.
use erp_iot.Base.{
  ℕ, zero, suc, ◌<◌, ◌≤◌, ◌+◌, Bool-cases, ◌≡◌, inl, inr, refl, ap, Bool, true, false, some, List,
  [], ◌∷◌, String, length, if◌then◌else◌, arith,
}
use erp_iot.Base.Json.{Json}
use erp_iot.Base.Time.{Time}
use erp_iot.Cabinet.Outcomes.{Outcome, is_ok}
use erp_iot.Cabinet.Client.{is_missing_route}
use erp_iot.Cabinet.SessionPayload.{Result, ok, raise}
use erp_iot.Sessions.{Cabinet, Db, FromIso}
use erp_iot.Reconciler.{
  Api, Run, Pass, window_start, last_good_window_to, refresh_active, ack_billed,
}
use erp_iot.Reconciler.Range.{
  Part, going_on, returned, failed, then_part, committed_or, on_outcome, with_error, with_ok,
  pulled_all, pulled_page, asked_page, turned, took_page, read_page, on_page, sessions_of, ask_refs,
  asked_refs, as_by_user, pages, with_window, acking, refreshing, range_part, finished, reconcile,
}

module _ (from_iso : FromIso) (cab : Cabinet) (now : Time) where
  -- a part that is not cut short by the end of the fuel
  abbrev Ends : Part → Type 0
  Ends m = (q : Pass) × (finished from_iso cab now m ≡ some q)

  then_part-Ends :
      (m : Part) (f : Pass → Part) → Ends m → ((q : Pass) → Ends (f q)) → Ends (then_part m f)
  then_part-Ends (going_on p) f h k = k p
  then_part-Ends (returned p) f h k = h
  then_part-Ends (failed p) f h k = h
  then_part-Ends Part.out_of_fuel f h k = h

  committed_or-Ends : (p : Pass) (r : Result Pass) → Ends (committed_or p r)
  committed_or-Ends p (raise e) = (_, refl)
  committed_or-Ends p (ok q) = (_, refl)

  refreshing-Ends : (api : Api) (p : Pass) → Ends (refreshing from_iso cab now api p)
  refreshing-Ends api p =
      then_part-Ends (committed_or p (refresh_active from_iso cab now api p))
        (acking from_iso cab now api) (committed_or-Ends p (refresh_active from_iso cab now api p))
        (λ q.
          then_part-Ends (committed_or q (ack_billed cab now api q)) (λ t. returned (with_ok t))
            (committed_or-Ends q (ack_billed cab now api q)) (λ t. (_, refl)))

  asked_page-Ends :
      (committed p : Pass) (out : Outcome) → Ends (asked_page from_iso cab now committed p out)
  asked_page-Ends committed p out =
      elim (is_ok out)
        as (λ b. Ends (
          if b
          then committed_or committed (pulled_page from_iso cab now out p)
          else returned (with_error p))) [
            | true ↦ committed_or-Ends committed (pulled_page from_iso cab now out p)
            | false ↦ (_, refl)
          ]

  on_outcome-Ends :
      (p : Pass) (r : Result Outcome) (f : Outcome → Part)
      → ((out : Outcome) → Ends (f out))
      → Ends (on_outcome p r f)
  on_outcome-Ends p (raise e) f k = (_, refl)
  on_outcome-Ends p (ok out) f k = k out

  ask_refs-Ends :
      (api : Api) (committed p : Pass) (refs : List String)
      → Ends (ask_refs from_iso cab now api committed p refs)
  unfolding ask_refs
  ask_refs-Ends api committed p [] = (_, refl)
  ask_refs-Ends api committed p (ref ∷ refs) =
      then_part-Ends
        (on_outcome committed (api.by_user_ref ref) (asked_page from_iso cab now committed p))
        (λ q. ask_refs from_iso cab now api q q refs)
        (on_outcome-Ends committed (api.by_user_ref ref) (asked_page from_iso cab now committed p)
          (asked_page-Ends committed p))
        (λ q. ask_refs-Ends api q q refs)

  -- behind a page that holds sessions the loop ends, or the next round does
  turned-Ends :
      (rest : Pass → ℕ → Part) (reached : ℕ) (q : Pass) (r : Result Bool)
      → Ends (rest q reached)
      → Ends (turned from_iso cab now rest reached q r)
  turned-Ends rest reached q (raise e) h = (_, refl)
  turned-Ends rest reached q (ok true) h = (_, refl)
  turned-Ends rest reached q (ok false) h = h

  took_page-Ends :
      (rest : Pass → ℕ → Part) (offset : ℕ) (committed : Pass) (raws : List Json) (out : Outcome)
      (r : Result Pass)
      → ((raw : Json) (more : List Json) (q : Pass)
          → raws ≡ raw ∷ more
          → Ends (rest q (offset + length (raw ∷ more))))
      → Ends (took_page from_iso cab now rest offset committed raws out r)
  took_page-Ends rest offset committed raws out (raise e) h = (_, refl)
  took_page-Ends rest offset committed [] out (ok q) h = (_, refl)
  took_page-Ends rest offset committed (raw ∷ raws) out (ok q) h =
      turned-Ends rest (offset + length (raw ∷ raws)) q _ (h raw raws q refl)

  read_page-Ends :
      (rest : Pass → ℕ → Part) (offset : ℕ) (committed p : Pass) (out : Outcome)
      (r : Result (List Json))
      → ((raw : Json) (more : List Json) (q : Pass)
          → r ≡ ok (raw ∷ more)
          → Ends (rest q (offset + length (raw ∷ more))))
      → Ends (read_page from_iso cab now rest offset committed p out r)
  read_page-Ends rest offset committed p out (raise e) h = (_, refl)
  read_page-Ends rest offset committed p out (ok raws) h =
      took_page-Ends rest offset committed raws out (pulled_all from_iso cab now raws p)
        (λ raw more q e. h raw more q (ap (λ l. ok l) e))

  on_page-Ends :
      (api : Api) (nightly : Bool) (rest : Pass → ℕ → Part) (offset : ℕ) (committed p : Pass)
      (out : Outcome)
      → ((raw : Json) (more : List Json) (q : Pass)
          → sessions_of out ≡ ok (raw ∷ more)
          → Ends (rest q (offset + length (raw ∷ more))))
      → Ends (on_page from_iso cab now api nightly rest offset committed p out)
  on_page-Ends api nightly rest offset committed p out h =
      elim (Bool-cases (is_missing_route out)) [
        | inl t ↦ rw t (
            ask_refs-Ends api committed (as_by_user from_iso cab now p)
              (asked_refs from_iso cab now nightly p.db))
        | inr f ↦ elim (Bool-cases (is_ok out)) [
          | inl t ↦ rw (f, t) (read_page-Ends rest offset committed p out (sessions_of out) h)
          | inr g ↦ rw (f, g) (_, refl)
        ]
      ]

  -- No page that the cabinet answers with sessions reaches beyond the first `n`.
  abbrev pub HasEnd : Api → (frm : Time) → (n : ℕ) → Type 0
  HasEnd api frm n =
      (offset : ℕ) (out : Outcome) (raw : Json) (raws : List Json)
      → api.ended_between frm now offset ≡ ok out
      → sessions_of out ≡ ok (raw ∷ raws)
      → offset + length (raw ∷ raws) ≤ n

  on_answer-Ends :
      (committed : Pass) (r : Result Outcome) (f : Outcome → Part)
      → ((out : Outcome) → r ≡ ok out → Ends (f out))
      → Ends (on_outcome committed r f)
  on_answer-Ends committed (raise e) f h = (_, refl)
  on_answer-Ends committed (ok out) f h = h out refl

  pages-Ends :
      (api : Api) (nightly : Bool) (frm : Time) (n fuel offset : ℕ) (committed p : Pass)
      → HasEnd api frm n
      → offset ≤ n
      → n < offset + fuel
      → Ends (pages from_iso cab now api nightly frm fuel committed p offset)
  unfolding pages
  pages-Ends api nightly frm n zero offset committed p h le f = absurd (omega arith)
  pages-Ends api nightly frm n (suc fuel) offset committed p h le f =
      on_answer-Ends committed (api.ended_between frm now offset) _ (λ out asked.
        on_page-Ends api nightly (λ q k. pages from_iso cab now api nightly frm fuel q q k) offset
          committed p out
          (λ raw more q e.
            let reached = h offset out raw more asked e in
            pages-Ends api nightly frm n fuel (offset + length (raw ∷ more)) q q h reached
              (omega arith)))

  range_part-Ends :
      (fuel : ℕ) (api : Api) (nightly : Bool) (runs : List Run) (p : Pass)
      → let frm = window_start nightly now (last_good_window_to runs) in
        Ends (pages from_iso cab now api nightly frm fuel p (with_window from_iso cab now frm p) 0)
        → Ends (range_part from_iso cab now fuel api nightly runs p)
  unfolding range_part
  range_part-Ends fuel api nightly runs p h =
      then_part-Ends _ (refreshing from_iso cab now api) h (refreshing-Ends api)

-- A run returns: if no page of the window that the cabinet answers with sessions reaches beyond the
-- first `n`, then with more than `n` rounds of fuel the run ends. The cabinet may answer anything else, the payloads may be anything, and any call and any payload may raise.
pub reconcile-returns :
    (from_iso : FromIso) (fuel n : ℕ) (cab : Cabinet) (api : Api) (has_channel_b nightly : Bool)
    (now : Time) (runs : List Run) (db : Db)
    → HasEnd from_iso cab now api (window_start nightly now (last_good_window_to runs)) n
    → n < fuel
    → (q : Pass) × (reconcile from_iso fuel cab api has_channel_b nightly now runs db ≡ some q)
unfolding reconcile
reconcile-returns from_iso fuel n cab api false nightly now runs db h f = (_, refl)
reconcile-returns from_iso fuel n cab api true nightly now runs db h f =
    range_part-Ends from_iso cab now fuel api nightly runs _
      (pages-Ends from_iso cab now api nightly _ n fuel 0 _ _ h (omega arith) (omega arith))
