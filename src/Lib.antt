-- ===== src/Lib.antt =====
-- ERP-IOT: a model of the backend of the marina ERP (backend/app) and what holds of it.
--
-- The backend polls cabinets on the docks, shows one status for each berth, keeps its own row for
-- every session of a cabinet and books customers' credit. Each module below follows one source file:
-- a Python dictionary of JSON is a `Json` value, a dataclass or a table row is a record, an enum or
-- a set of fixed words is a data type, and a raised exception is a constructor of a result.
--
--   Base               shared lists, signed integers, JSON, texts and times
--   Cabinet/BerthStatus     backend/app/cabinet/berth_status.py: `compute`, one status for a berth
--   Cabinet/BerthView       backend/app/cabinet/berth_view.py: `build`, the rows that staff see, with the
--                           lookups of backend/app/cabinet/cabinet_config.py
--   Cabinet/SessionPayload  backend/app/cabinet/session_payload.py: `parse_session`
--   Cabinet/Outcomes        backend/app/cabinet/outcomes.py: the words for an answer of a cabinet
--   Cabinet/Contract        backend/app/cabinet/contract.py: the call table and `build_path`
--   Cabinet/Client          backend/app/cabinet/client.py: `call` with its retries, its token, its
--                           cache and its log, and the NFC channel
--   Credit                  backend/app/services/credit.py: `balance` and `post`
--   Sessions                backend/app/services/session_sync.py: `find` and `apply`
--   Reconciler              backend/app/services/reconciler.py: `reconcile` in both modes
--   Webhooks                backend/app/routers/webhooks.py: the receiver of a cabinet and that of a
--                           marina, with the decoy keys of backend/app/services/decoys.py
--   Retention               backend/app/services/retention.py: `run`, its sweeps and the roll-up
--   Agent                   backend/app/agent/rules.py and backend/app/agent/run.py: the six rules and
--                           one pass of the security agent
--   Cabinets                backend/app/services/cabinets.py: berths, which outlet serves which berth,
--                           and the comparison with the claims of a cabinet
--   Collector               backend/app/services/collector.py: readings, alarms and due times
--   Accounts                backend/app/services/accounts.py, backend/app/utils/totp.py and the
--                           sign-in routes of backend/app/routers/auth.py
--   Tags                    backend/app/cabinet/nfc_uid.py and backend/app/services/nfc_tags.py
--
-- The view of a marina computes the status of each berth and shows controls by it.
-- The client builds its path by the contract and classifies answers by the outcomes; sessions are
-- parsed by `parse_session` and applied by the pull of the reconciler and by the webhook. The
-- collector attributes a reading to the active session of its outlet, and retention rolls the
-- intervals that the collector writes up into the monthly figures.
--
-- Numbers. A time is a number of microseconds since 1970, a float of a payload a signed number of
-- ten-thousandths (so it is finite and has at most four decimals), an amount of money a signed number
-- of cents. Where `parse_session` compares a figure with the registers, the numbers and their
-- differences are rounded to the 53 bits of a binary float, as Python does. Integers do not wrap.
--
-- Loops. The client's loop recurs on the attempts that are left, three at first, and a second
-- function serves behind the one new sign-in, so no fuel is needed. The pages of a run and the chunks
-- of a sweep take fuel: more than there are sessions in the window, and more than there are rows, is
-- enough, since a page or a chunk that is not empty takes one off at least. The digits of a number are
-- printed with fuel above the number, which falls in every round.
--
-- The world outside stands as arguments: the clock, the answers of the cabinet, the JWT reader and
-- `json.dumps` in `World`, the ISO parser in `FromIso`, bcrypt (with the
-- passwords that its check raises on), sha256 and the TOTP code of a secret
-- in `Libraries`, SHA-256, the zones and the ISO texts in the `World` of the agent, Fernet, HMAC and
-- `json.loads` in the `World` of the webhooks. A table is a list of rows, newest first where the order
-- counts. Of the database's constraints the unique ones of tags, alarms and outlets are modelled; a raised
-- exception leaves what was committed before it, which the reconciler, the webhooks and retention
-- write out. The locks of PostgreSQL and logging are left out.
pub mod Base
pub mod Cabinet
pub mod Credit
pub mod Sessions
pub mod Cabinets
pub mod Collector
pub mod Accounts
pub mod Agent
pub mod Tags
pub mod Reconciler
pub mod Retention
pub mod Webhooks
