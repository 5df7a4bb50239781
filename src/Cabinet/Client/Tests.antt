-- ===== src/Cabinet/Client/Tests.antt =====
-- Calls of a cabinet at fixed answers, and the theorems at them.
use erp_iot.Base.{◌+◌, ◌≤◌, ◌≡◌, ◌⊎◌, refl, true, [], ◌∷◌, none, some}
use erp_iot.Base.Json.{bool, str, field, end, obj}
use erp_iot.Base.Time.{hours}
use erp_iot.Cabinet.Contract.{Method}
use erp_iot.Cabinet.Outcomes.{Outcome}
use erp_iot.Cabinet.Client.{
  World, failed, answered, Reply, Client, Call, perform, retry, retry_relogged, round, token_now,
  given_up, logged, refused_by, handle, content_of, detail, stale_outcome,
}
use erp_iot.Cabinet.Client.Attempts.{perform_bounds}
use erp_iot.Cabinet.Client.Cached.{IsFromCache, perform-stale}

-- the token is given, and nothing else answers
abbrev token_given : Reply
token_given = record {
  status = 200;
  says_json = true;
  parsed = some (obj (field "access_token" (str "abc") end));
  body = "";
  raw = [];
}

abbrev dead_cabinet : World
dead_cabinet = record {
  clock = λ n. hours 100;
  token_reply = λ n. answered token_given;
  reply = λ n. failed "timeout";
  jwt_exp = λ t. some (hours 200);
  dumps = λ v. "";
}

-- a cabinet that refuses every token
abbrev strict_cabinet : World
strict_cabinet = record dead_cabinet {
  reply = λ n.
      answered (record { status = 401; says_json = true; parsed = none; body = "no"; raw = [] });
}

abbrev list_call : Call
list_call = record {
  key = "pedestals.list";
  method = Method.get;
  cache_key = "pedestals.list:-";
  has_db = true;
}

abbrev stop_call : Call
stop_call = record {
  key = "controls.stop";
  method = Method.post;
  cache_key = "controls.stop:-";
  has_db = true;
}

abbrev fresh : Client
fresh = record {
  base_url = "http://cab";
  erp_api_key = some "k";
  token = none;
  token_expires = none;
  not_enabled_until = [];
  last_status = [];
  cache =
      record { cache_key = "pedestals.list:-"; last_seen = bool true; last_synced_at = hours 90 }
      ∷ [];
  sync_log = [];
  step = 0;
  requests = 0;
  waits = [];
}

abbrev old_list : Outcome
old_list = stale_outcome list_call (some "timeout") (bool true, hours 90)

dead_run :
    ((perform dead_cabinet list_call fresh).0 ≡ some old_list)
    × ((perform dead_cabinet list_call fresh).1.requests ≡ 4)
    × ((perform dead_cabinet list_call fresh).1.waits ≡ 2 ∷ 1 ∷ [])
unfolding perform retry round token_now given_up logged
dead_run = (refl, refl, refl)

strict_run : (perform strict_cabinet stop_call fresh).1.requests ≡ 4
unfolding perform retry retry_relogged round token_now handle refused_by content_of detail logged
strict_run = refl

perform_bounds_example :
    let d = (perform dead_cabinet list_call fresh).1 in
    (d.requests ≤ 0 + 8) × ((d.waits ≡ []) ⊎ ((d.waits ≡ 1 ∷ []) ⊎ (d.waits ≡ 2 ∷ 1 ∷ [])))
perform_bounds_example = perform_bounds dead_cabinet list_call fresh

perform-stale_example : IsFromCache list_call fresh old_list
perform-stale_example = perform-stale dead_cabinet list_call fresh old_list dead_run.0 refl
