-- ===== src/Reconciler/Keeps.antt =====
-- backend/app/services/reconciler.py: what every pull and every acknowledgement keeps, a run keeps.
use erp_iot.Base.{
  ℕ, zero, suc, String, ◌≡◌, subst, Bool, true, false, not, ◌||◌, Option, none, some, List, [], ◌∷◌,
  map, if◌then◌else◌, some-injective, arith, ◌+◌, length, select,
}
use erp_iot.Base.Int.{ℤ}
use erp_iot.Base.Json.{Json, null, bool, int, float, str, arr, obj}
use erp_iot.Base.Time.{Time}
use erp_iot.Cabinet.Outcomes.{Outcome, is_ok}
use erp_iot.Cabinet.Client.{is_missing_route}
use erp_iot.Cabinet.SessionPayload.{Result, ok, raise, ◌>>=◌}
use erp_iot.Sessions.{Cabinet, Db, FromIso}
use erp_iot.Reconciler.{
  Api, Run, Pass, pulled, value_of, refreshed, refresh_one, refresh_each, number_at, is_open_row,
  refresh_active, known_ids, is_unconfirmed, confirmed, acked, ack_ids, ack_billed, window_start,
  last_good_window_to,
}
use erp_iot.Reconciler.Range.{
  Part, going_on, returned, failed, out_of_fuel, then_part, committed_or, on_outcome, sessions_of,
  total_of, is_reached, with_error, with_ok, pulled_all, pulled_page, asked_page, ask_refs,
  asked_refs, as_by_user, turned, next_page, took_page, read_page, on_page, pages, with_window,
  acking, refreshing, range_part, finished, reconcile,
}

if_lem {ℓ κ} :
    {A : Type ℓ} (Q : A → Type κ) (b : Bool) {x y : A} → Q x → Q y → Q (if b then x else y)
if_lem Q true hx hy = hx
if_lem Q false hx hy = hy

-- A property of the tables that pulling a payload and confirming the billed sessions keep.
module _ {ℓ} (from_iso : FromIso) (cab : Cabinet) (now : Time) (P : Db → Type ℓ) where
  abbrev pub Has : Result Pass → Type ℓ
  Has (raise e) = Unit
  Has (ok q) = P q.db

  abbrev pub HasPart : Part → Type ℓ
  HasPart (going_on q) = P q.db
  HasPart (returned q) = P q.db
  HasPart (failed q) = P q.db
  HasPart out_of_fuel = Unit

  >>=-Has :
      (m : Result Pass) (f : Pass → Result Pass)
      → Has m
      → ((q : Pass) → P q.db → Has (f q))
      → Has (m >>= f)
  >>=-Has (raise e) f h k = tt
  >>=-Has (ok q) f h k = k q h

  any-Has {κ} :
      {A : Type κ} (m : Result A) (f : A → Result Pass) → ((a : A) → Has (f a)) → Has (m >>= f)
  any-Has (raise e) f k = tt
  any-Has (ok a) f k = k a

  then_part-HasPart :
      (m : Part) (f : Pass → Part)
      → HasPart m
      → ((q : Pass) → P q.db → HasPart (f q))
      → HasPart (then_part m f)
  then_part-HasPart (going_on q) f h k = k q h
  then_part-HasPart (returned q) f h k = h
  then_part-HasPart (failed q) f h k = h
  then_part-HasPart out_of_fuel f h k = tt

  committed_or-HasPart : (p : Pass) (r : Result Pass) → P p.db → Has r → HasPart (committed_or p r)
  committed_or-HasPart p (raise e) h k = h
  committed_or-HasPart p (ok q) h k = k

  on_outcome-HasPart :
      (p : Pass) (r : Result Outcome) (f : Outcome → Part)
      → P p.db
      → ((out : Outcome) → HasPart (f out))
      → HasPart (on_outcome p r f)
  on_outcome-HasPart p (raise e) f h k = h
  on_outcome-HasPart p (ok out) f h k = k out

  module _
      (keeps_pull : (raw : Json) (p : Pass) → P p.db → Has (pulled from_iso cab now raw p)) where
    pulled_all-Has :
        (raws : List Json) (p : Pass) → P p.db → Has (pulled_all from_iso cab now raws p)
    unfolding pulled_all
    pulled_all-Has [] p h = h
    pulled_all-Has (raw ∷ raws) p h =
        >>=-Has (pulled from_iso cab now raw p) _ (keeps_pull raw p h) (pulled_all-Has raws)

    pulled_page-Has : (out : Outcome) (p : Pass) → P p.db → Has (pulled_page from_iso cab now out p)
    pulled_page-Has out p h = any-Has (sessions_of out) _ (λ raws. pulled_all-Has raws p h)

    refreshed-Has : (out : Outcome) (p : Pass) → P p.db → Has (refreshed from_iso cab now out p)
    refreshed-Has out p h = of_value (value_of out.content)
      where
        of_value :
            (v : Json)
            → Has (elim v [
              | obj fs ↦ if is_ok out then pulled from_iso cab now (obj fs) p else ok p
              | _ ↦ ok p
            ])
        of_value (obj fs) =
            elim (is_ok out)
              as (λ b. Has (if b then pulled from_iso cab now (obj fs) p else ok p)) [
                | true ↦ keeps_pull (obj fs) p h
                | false ↦ h
              ]
        of_value null = h
        of_value (bool b) = h
        of_value (int n) = h
        of_value (float x) = h
        of_value (str s) = h
        of_value (arr vs) = h

    refresh_one-Has :
        (api : Api) (o : Option ℤ) (p : Pass) → P p.db → Has (refresh_one from_iso cab now api o p)
    refresh_one-Has api none p h = h
    refresh_one-Has api (some n) p h = any-Has (api.session n) _ (λ out. refreshed-Has out p h)

    refresh_each-Has :
        (api : Api) (ks : List ℕ) (p : Pass) → P p.db → Has (refresh_each from_iso cab now api ks p)
    refresh_each-Has api [] p h = h
    refresh_each-Has api (k ∷ ks) p h =
        >>=-Has (refresh_one from_iso cab now api (number_at k p.db.sessions) p) _
          (refresh_one-Has api (number_at k p.db.sessions) p h) (refresh_each-Has api ks)

    refresh_active-Has :
        (api : Api) (p : Pass) → P p.db → Has (refresh_active from_iso cab now api p)
    unfolding refresh_active
    refresh_active-Has api p h =
        refresh_each-Has api (map (λ s. s.id) (select (is_open_row cab) p.db.sessions)) p h

    asked_page-HasPart :
        (committed p : Pass) (out : Outcome)
        → P committed.db
        → P p.db
        → HasPart (asked_page from_iso cab now committed p out)
    asked_page-HasPart committed p out hc h =
        elim (is_ok out)
          as (λ b. HasPart (
            if b
            then committed_or committed (pulled_page from_iso cab now out p)
            else returned (with_error p))) [
              | true ↦ committed_or-HasPart committed _ hc (pulled_page-Has out p h)
              | false ↦ h
            ]

    ask_refs-HasPart :
        (api : Api) (committed p : Pass) (refs : List String)
        → P committed.db
        → P p.db
        → HasPart (ask_refs from_iso cab now api committed p refs)
    unfolding ask_refs
    ask_refs-HasPart api committed p [] hc h = h
    ask_refs-HasPart api committed p (ref ∷ refs) hc h =
        then_part-HasPart _ _
          (on_outcome-HasPart committed (api.by_user_ref ref) _ hc
            (λ out. asked_page-HasPart committed p out hc h))
          (λ q k. ask_refs-HasPart api q q refs k k)

    turned-HasPart :
        (rest : Pass → ℕ → Part) (reached : ℕ) (q : Pass) (r : Result Bool)
        → P q.db
        → ((q' : Pass) (n : ℕ) → P q'.db → HasPart (rest q' n))
        → HasPart (turned from_iso cab now rest reached q r)
    turned-HasPart rest reached q (raise e) h k = h
    turned-HasPart rest reached q (ok true) h k = h
    turned-HasPart rest reached q (ok false) h k = k q reached h

    next_page-HasPart :
        (rest : Pass → ℕ → Part) (offset : ℕ) (raws : List Json) (out : Outcome) (q : Pass)
        → P q.db
        → ((q' : Pass) (n : ℕ) → P q'.db → HasPart (rest q' n))
        → HasPart (next_page from_iso cab now rest offset raws out q)
    next_page-HasPart rest offset [] out q h k = h
    next_page-HasPart rest offset (raw ∷ raws) out q h k =
        turned-HasPart rest _ q (total_of out >>= is_reached (offset + length (raw ∷ raws))) h k

    took_page-HasPart :
        (rest : Pass → ℕ → Part) (offset : ℕ) (committed : Pass) (raws : List Json) (out : Outcome)
        (r : Result Pass)
        → P committed.db
        → Has r
        → ((q' : Pass) (n : ℕ) → P q'.db → HasPart (rest q' n))
        → HasPart (took_page from_iso cab now rest offset committed raws out r)
    took_page-HasPart rest offset committed raws out (raise e) hc h k = hc
    took_page-HasPart rest offset committed raws out (ok q) hc h k =
        next_page-HasPart rest offset raws out q h k

    read_page-HasPart :
        (rest : Pass → ℕ → Part) (offset : ℕ) (committed p : Pass) (out : Outcome)
        (r : Result (List Json))
        → P committed.db
        → P p.db
        → ((q' : Pass) (n : ℕ) → P q'.db → HasPart (rest q' n))
        → HasPart (read_page from_iso cab now rest offset committed p out r)
    read_page-HasPart rest offset committed p out (raise e) hc h k = hc
    read_page-HasPart rest offset committed p out (ok raws) hc h k =
        took_page-HasPart rest offset committed raws out _ hc (pulled_all-Has raws p h) k

    on_page-HasPart :
        (api : Api) (nightly : Bool) (rest : Pass → ℕ → Part) (offset : ℕ) (committed p : Pass)
        (out : Outcome)
        → P committed.db
        → P p.db
        → ((q' : Pass) (n : ℕ) → P q'.db → HasPart (rest q' n))
        → HasPart (on_page from_iso cab now api nightly rest offset committed p out)
    on_page-HasPart api nightly rest offset committed p out hc h k =
        if_lem HasPart (is_missing_route out)
          (ask_refs-HasPart api committed (as_by_user from_iso cab now p)
            (asked_refs from_iso cab now nightly p.db) hc h)
          (if_lem HasPart (is_ok out)
            (read_page-HasPart rest offset committed p out (sessions_of out) hc h k) h)

    pages-HasPart :
        (api : Api) (nightly : Bool) (frm : Time) (fuel : ℕ) (committed p : Pass) (offset : ℕ)
        → P committed.db
        → P p.db
        → HasPart (pages from_iso cab now api nightly frm fuel committed p offset)
    unfolding pages
    pages-HasPart api nightly frm zero committed p offset hc h = tt
    pages-HasPart api nightly frm (suc fuel) committed p offset hc h =
        on_outcome-HasPart committed (api.ended_between frm now offset) _ hc (λ out.
          on_page-HasPart api nightly _ offset committed p out hc h
            (λ q n k. pages-HasPart api nightly frm fuel q q n k k))

    module _
        (keeps_ack : (db : Db)
          → P db
          → P (record db { sessions = map (confirmed cab now) db.sessions })) where
      acked-Has : (n : ℕ) (p : Pass) (out : Outcome) → P p.db → P (acked cab now n p out).db
      acked-Has n p out h =
          if_lem (λ (q : Pass). P q.db) (is_missing_route out || not (is_ok out)) h
            (keeps_ack p.db h)

      ack_ids-Has : (api : Api) (p : Pass) (ns : List ℤ) → P p.db → Has (ack_ids cab now api p ns)
      ack_ids-Has api p [] h = h
      ack_ids-Has api p (n ∷ ns) h =
          any-Has (api.ack (n ∷ ns)) _ (λ out. acked-Has (length (n ∷ ns)) p out h)

      ack_billed-Has : (api : Api) (p : Pass) → P p.db → Has (ack_billed cab now api p)
      unfolding ack_billed
      ack_billed-Has api p h =
          ack_ids-Has api p (known_ids (select (is_unconfirmed cab) p.db.sessions)) h

      acking-HasPart : (api : Api) (r : Pass) → P r.db → HasPart (acking from_iso cab now api r)
      acking-HasPart api r h =
          then_part-HasPart (committed_or r (ack_billed cab now api r)) (λ t. returned (with_ok t))
            (committed_or-HasPart r (ack_billed cab now api r) h (ack_billed-Has api r h))
            (λ t k. k)

      refreshing-HasPart :
          (api : Api) (q : Pass) → P q.db → HasPart (refreshing from_iso cab now api q)
      refreshing-HasPart api q h =
          then_part-HasPart (committed_or q (refresh_active from_iso cab now api q))
            (acking from_iso cab now api)
            (committed_or-HasPart q (refresh_active from_iso cab now api q) h
              (refresh_active-Has api q h))
            (acking-HasPart api)

      range_part-HasPart :
          (fuel : ℕ) (api : Api) (nightly : Bool) (runs : List Run) (p : Pass)
          → P p.db
          → HasPart (range_part from_iso cab now fuel api nightly runs p)
      unfolding range_part
      range_part-HasPart fuel api nightly runs p h =
          let frm = window_start nightly now (last_good_window_to runs) in
          then_part-HasPart
            (pages from_iso cab now api nightly frm fuel p (with_window from_iso cab now frm p) 0)
            (refreshing from_iso cab now api)
            (pages-HasPart api nightly frm fuel p (with_window from_iso cab now frm p) 0 h h)
            (refreshing-HasPart api)

      finished-Has :
          (m : Part) (q : Pass) → HasPart m → finished from_iso cab now m ≡ some q → P q.db
      finished-Has (going_on p) q h e = subst (λ (x : Pass). P x.db) (some-injective e) h
      finished-Has (returned p) q h e = subst (λ (x : Pass). P x.db) (some-injective e) h
      finished-Has (failed p) q h e = subst (λ (x : Pass). P x.db) (some-injective e) h
      finished-Has out_of_fuel q h e = absurd (ground arith)

      pub reconcile-keeps :
          (fuel : ℕ) (api : Api) (has_channel_b nightly : Bool) (runs : List Run) (db : Db)
          (q : Pass)
          → P db
          → reconcile from_iso fuel cab api has_channel_b nightly now runs db ≡ some q
          → P q.db
      unfolding reconcile
      reconcile-keeps fuel api true nightly runs db q h e =
          finished-Has _ q (range_part-HasPart fuel api nightly runs _ h) e
      reconcile-keeps fuel api false nightly runs db q h e =
          subst (λ (x : Pass). P x.db) (some-injective e) h
