-- ===== src/Reconciler/Paged.antt =====
-- backend/app/services/reconciler.py: the pages of a cabinet against the list that they are cut from.
use mathlib.Core.List.{append_assoc}
use erp_iot.Base.{
  ℕ, zero, suc, ◌+◌, ◌<◌, ◌≡◌, ◌⊎◌, inl, inr, refl, sym, ap, ◌∙◌, Bool, true, false, List, [], ◌∷◌,
  ◌++◌, take, drop, take-append-drop, length, length-append, leb, leb→le, Bool-cases, arith,
}
use erp_iot.Base.Int.{pos}
use erp_iot.Base.Json.{Json, null, int}
use erp_iot.Base.Time.{Time}
use erp_iot.Cabinet.Outcomes.{Outcome, is_ok}
use erp_iot.Cabinet.Client.{is_missing_route}
use erp_iot.Cabinet.SessionPayload.{Result, ok, raise, ok-injective, ◌>>=◌}
use erp_iot.Sessions.{Cabinet, FromIso}
use erp_iot.Reconciler.{Api, Pass, pulled}
use erp_iot.Reconciler.Range.{
  Part, going_on, page, sessions_of, total_of, is_reached, pulled_all, turned, next_page, took_page,
  on_page, pages,
}

-- What a cabinet with the range answers from `frm` to `now`, where `xs` are its sessions in that window:
-- from an offset the next ones, at most `page`, and their number or none.
pub record IsPage (out : Outcome) (size : ℕ) (rest xs : List Json) : Type 0 where
  pub has_route : is_missing_route out ≡ false
  pub succeeds : is_ok out ≡ true
  pub holds : sessions_of out ≡ ok (take size rest)
  pub counts : (total_of out ≡ ok null) ⊎ (total_of out ≡ ok (int (pos (length xs))))

abbrev pub IsPaged : ℕ → Api → (frm now : Time) → List Json → Type 0
IsPaged size api frm now xs =
    (before rest : List Json)
    → before ++ rest ≡ xs
    → (out : Outcome) × (api.ended_between frm now (length before) ≡ ok out)
      × IsPage out size rest xs

bind-append :
    (f g h : Pass → Result Pass) (m : Result Pass)
    → ((q : Pass) → f q ≡ (g q >>= h))
    → (m >>= f) ≡ ((m >>= g) >>= h)
bind-append f g h (raise e) same = refl
bind-append f g h (ok q) same = same q

-- a bind that returns has a first part that returns
bind-ok :
    (m : Result Pass) (f : Pass → Result Pass) {b : Pass}
    → (m >>= f) ≡ ok b
    → (a : Pass) × (m ≡ ok a) × (f a ≡ ok b)
bind-ok (raise e) f h = absurd (ground arith)
bind-ok (ok a) f h = (a, refl, h)

module _ (from_iso : FromIso) (cab : Cabinet) (now : Time) where
  pulled_all-append :
      (xs ys : List Json) (p : Pass)
      → pulled_all from_iso cab now (xs ++ ys) p
        ≡ (pulled_all from_iso cab now xs p >>= λ q. pulled_all from_iso cab now ys q)
  unfolding pulled_all
  pulled_all-append [] ys p = refl
  pulled_all-append (x ∷ xs) ys p =
      bind-append _ _ _ (pulled from_iso cab now x p) (pulled_all-append xs ys)

  -- the payloads of one page, and those behind it
  pulled_page :
      (n : ℕ) (xs : List Json) (p q : Pass)
      → pulled_all from_iso cab now xs p ≡ ok q
      → (r : Pass) × (pulled_all from_iso cab now (take n xs) p ≡ ok r)
        × (pulled_all from_iso cab now (drop n xs) r ≡ ok q)
  pulled_page n xs p q h = bind-ok (pulled_all from_iso cab now (take n xs) p) _ (
      sym (pulled_all-append (take n xs) (drop n xs) p)
      ∙ ap (λ l. pulled_all from_iso cab now l p) (take-append-drop n xs)
      ∙ h)

  module _ (api : Api) (nightly : Bool) (frm : Time) where
    on_page_lem :
        (size : ℕ) (rest : Pass → ℕ → Part) (offset : ℕ) (committed p : Pass) (out : Outcome)
        (xs all : List Json)
        → IsPage out size xs all
        → on_page from_iso cab now api nightly rest offset committed p out
          ≡ took_page from_iso cab now rest offset committed
              (take size xs)
              out
              (pulled_all from_iso cab now (take size xs) p)
    on_page_lem size rest offset committed p out xs all h =
        rw (h.has_route, h.succeeds, h.holds) refl

    pages_step :
        (fuel offset : ℕ) (committed p : Pass) (out : Outcome)
        → api.ended_between frm now offset ≡ ok out
        → pages from_iso cab now api nightly frm (suc fuel) committed p offset
          ≡ on_page from_iso cab now api nightly
              (λ q n. pages from_iso cab now api nightly frm fuel q q n)
              offset
              committed
              p
              out
    unfolding pages
    pages_step fuel offset committed p out h = rw h refl

    module _ (n : ℕ) (all : List Json) where
      -- the end of the list has nothing left to pull
      nothing_left :
          (xs : List Json) (r q : Pass)
          → length xs ≡ 0
          → pulled_all from_iso cab now xs r ≡ ok q
          → r ≡ q
      unfolding pulled_all
      nothing_left [] r q e h = ok-injective h
      nothing_left (x ∷ xs) r q e h = absurd (omega arith)

      no_total :
          (k : ℕ) (out : Outcome)
          → total_of out ≡ ok null
          → (total_of out >>= is_reached k) ≡ ok false
      no_total k out e = ap (λ t. t >>= is_reached k) e

      with_total :
          (k : ℕ) (out : Outcome)
          → total_of out ≡ ok (int (pos (length all)))
          → (total_of out >>= is_reached k) ≡ ok (leb (length all) (k + 0))
      with_total k out e = ap (λ t. t >>= is_reached k) e

      module _ (rest : Pass → ℕ → Part) (before : List Json) (r q : Pass)
          (continue : (before' xs' : List Json)
            → before' ++ xs' ≡ all
            → length before < length before'
            → pulled_all from_iso cab now xs' r ≡ ok q
            → rest r (length before') ≡ going_on q) where
        on_from :
            (x : Json) (xs : List Json)
            → before ++ x ∷ xs ≡ all
            → pulled_all from_iso cab now (drop n xs) r ≡ ok q
            → rest r (length before + length (x ∷ take n xs)) ≡ going_on q
        on_from x xs e behind =
            ap (rest r) (sym (length-append before (x ∷ take n xs)))
            ∙ continue (before ++ x ∷ take n xs) (drop n xs)
                (append_assoc before (x ∷ take n xs) (drop n xs)
                  ∙ ap (λ l. before ++ x ∷ l) (take-append-drop n xs)
                  ∙ e)
                (omega (arith, length-append before (x ∷ take n xs))) behind

        none_left :
            (x : Json) (xs : List Json)
            → before ++ x ∷ xs ≡ all
            → leb (length all) (length before + length (x ∷ take n xs) + 0) ≡ true
            → length (drop n xs) ≡ 0
        none_left x xs e done = omega (
          arith,
          leb→le _ _ done,
          ap length e,
          length-append before (x ∷ xs),
          ap length (take-append-drop n xs),
          length-append (take n xs) (drop n xs),
        )

        next_page_lem :
            (xs : List Json) (out : Outcome)
            → IsPage out (suc n) xs all
            → before ++ xs ≡ all
            → pulled_all from_iso cab now (drop (suc n) xs) r ≡ ok q
            → next_page from_iso cab now rest (length before) (take (suc n) xs) out r ≡ going_on q
        next_page_lem [] out good e behind = ap (λ z. going_on z) (nothing_left [] r q refl behind)
        next_page_lem (x ∷ xs) out good e behind = elim good.counts [
          | inl t ↦
              ap (turned from_iso cab now rest reached r) (no_total reached out t)
              ∙ on_from x xs e behind
          | inr t ↦
              ap (turned from_iso cab now rest reached r) (with_total reached out t)
              ∙ elim (Bool-cases (leb (length all) (reached + 0))) [
                | inl done ↦
                    ap (λ b. turned from_iso cab now rest reached r (ok b)) done
                    ∙ ap (λ z. going_on z)
                        (nothing_left (drop n xs) r q (none_left x xs e done) behind)
                | inr more ↦
                    ap (λ b. turned from_iso cab now rest reached r (ok b)) more
                    ∙ on_from x xs e behind
              ]
        ]
          where
            reached : ℕ
            reached = length before + length (x ∷ take n xs)

      pages_from :
          (fuel : ℕ) (before xs : List Json) (committed p q : Pass)
          → IsPaged (suc n) api frm now all
          → before ++ xs ≡ all
          → length xs < fuel
          → pulled_all from_iso cab now xs p ≡ ok q
          → pages from_iso cab now api nightly frm fuel committed p (length before) ≡ going_on q
      pages_from zero before xs committed p q paged e f h = absurd (omega arith)
      pages_from (suc fuel) before xs committed p q paged e f h =
          let (out, asked, good) = paged before xs e in
          let (r, here, behind) = pulled_page (suc n) xs p q h in
          let rest : Pass → ℕ → Part =
            λ q' k. pages from_iso cab now api nightly frm fuel q' q' k in
          pages_step fuel (length before) committed p out asked
          ∙ on_page_lem (suc n) rest (length before) committed p out xs all good
          ∙ ap (took_page from_iso cab now rest (length before) committed (take (suc n) xs) out)
              here
          ∙ next_page_lem rest before r q
              (λ before' xs' e' l b.
                pages_from fuel before' xs' r r q paged e'
                  (omega (
                    arith,
                    ap length e,
                    ap length e',
                    length-append before xs,
                    length-append before' xs',
                  ))
                  b)
              xs out good e behind

-- The pages are the whole list: if the cabinet cuts the sessions `xs` of the window into pages of a
-- hundred, with or without their number, and the payloads are applied one by one without an exception,
-- then the loop ends with more fuel than sessions, and it has applied each payload once, in order.
pub pages_complete :
    (from_iso : FromIso) (cab : Cabinet) (now : Time) (api : Api) (nightly : Bool) (frm : Time)
    (xs : List Json) (fuel : ℕ) (committed p q : Pass)
    → IsPaged page api frm now xs
    → length xs < fuel
    → pulled_all from_iso cab now xs p ≡ ok q
    → pages from_iso cab now api nightly frm fuel committed p 0 ≡ going_on q
pages_complete from_iso cab now api nightly frm xs fuel committed p q paged f h =
    pages_from from_iso cab now api nightly frm 99 xs fuel [] xs committed p q paged refl f h
