-- ===== src/Lib.antt =====
-- Kepryx: an asset inventory and exposure platform (FastAPI, SQLAlchemy, Celery, Redis).
--
-- The parts modelled, and the files that model them:
--   app/services/risk_engine.py: Risk. `compute_risk` turns an asset's dictionary into a score, a
--     tier, an action and a deadline. Floats are scaled integers: scores and weights in hundredths,
--     CVSS in tenths, EPSS in hundred-thousandths; the weighted sum is then exact.
--   app/workers/reconcile_tasks.py: Risk/Rescore, the task that stores the scores.
--   app/api/auth.py, with the calls of app/core/security.py that it makes: Accounts. A handler takes
--     the time in milliseconds, the texts that it draws at random and the table of users with its
--     audit log, and returns its answer and what it committed; an exception before the commit leaves
--     the tables. argon2, pyotp and the cipher are the interface `Crypto` of Accounts/State; a code
--     raises where the secret is not base32.
--   app/core/password_policy.py: PasswordPolicy.
--   app/api/deps.py and app/core/api_token_auth.py: Access. A checker takes the request, the time,
--     Redis and the tables of users and API tokens; `Policy` holds the settings and the libraries.
--     Access/Refresh is `refresh` of app/api/auth.py. Access/Audit is `audit`, which writes a row of
--     the audit log; a text that is wider than its column is refused, as PostgreSQL does.
--   app/services/reconciler.py, with `_detect_stale_and_gaps` of app/workers/reconcile_tasks.py:
--     Reconciler. A step takes the clock, the start of the transaction and the two tables, and ends
--     in a result and the tables. A lookup that matches several rows and a missing NOT NULL column
--     are errors. Left out: the free text of alerts, and texts that the INET and MACADDR columns
--     reject. UUIDs are numbers from a counter.
--   app/services/webhook_dispatcher.py: Webhooks. The network is the list of the requests sent and of
--     the answers to come; `Outside` holds name resolution, URL parsing, `is_global` and the cipher.
--     The commit raises where a `last_status` is wider than its column.
--     Webhooks/Requests is the request, with its signature and the pinning of its address; HMAC,
--     `json.dumps` and httpx's reading of a URL are `Libraries`.
--   app/services/scanner.py: Scanner, with the element trees of the XML reader in Scanner/Xml. The
--     process is a list of the ends to come, and keeps the commands that were run.
--   app/workers/scan_tasks.py: ScanTasks. A run takes the clock and the rows of networks; a World
--     holds the rows of scans, the tables of the reconciler and the process. A rollback gives back
--     the tables of the last commit; as it also expires the rows that the session holds, the task ends
--     in an exception after the row of the network whose merge failed.
--   app/services/compliance_catalog.py and app/workers/compliance_tasks.py: Compliance. The catalogues
--     are in Compliance/Catalog, `_assess` in Compliance, `_run_audit` in Compliance/Audit: a run
--     goes through all pairs of an asset and a control with the tables and the counters, the Books.
--   app/workers/retention_tasks.py: Retention, the four passes over the log, the assets and the alerts.
--   app/workers/reconcile_tasks.py: Sync is `_sync_all` and `_cleanup_old_data`; what a connector gives
--     is an argument, and a commit after a failed flush raises, as SQLAlchemy documents.
--   app/core/pii.py: Pii, over JSON trees; the hash and the patterns of secrets are arguments. Pii/Logs
--     is the filter of log records.
--   app/core/connector_secrets.py: Connectors; `Outside` holds the URL parser, the cipher and `is_global`.
--   app/core/token_blocklist.py: Tokens. Each call takes the time in milliseconds and the state of
--     Redis, which is the interface in Redis: its laws are the documented behaviour of MGET, SETEX
--     and SET with EX and NX, errors included. Tokens/Trace has the calls of any number of processes
--     as a step relation; Redis/Memory shows that the interface can be met.
--   app/core/rate_limit.py: RateLimit, over the interface Counters (INCR, EXPIRE and TTL).
--   app/core/scan_authorization.py: ScanAuthorization, over Networks: the arithmetic of addresses and
--     networks is modelled, the reading and printing of their texts is the interface `IpTexts`.
--
-- How they meet: Access checks every protected request with the token check of Tokens, the
-- client's address of RateLimit and the addresses of Networks; log-in and the expensive requests
-- also go through RateLimit; Access/Audit writes what a handler does to the log, redacted by Pii; a
-- change of a password cuts off the sessions through Tokens; the scan tasks ask ScanAuthorization
-- before each scan; the scans and connectors report hosts to Reconciler; the rescoring task stores
-- what Risk computes from the vulnerabilities that are neither suppressed nor remediated.
--
-- Bounds and fuel: every loop of the source runs over a list, but for the retries of a delivery, which
-- take the number of attempts left, three at first as in the source. Times and counters are unbounded,
-- as Python's integers are.
--
-- Not modelled: the arithmetic of hashing and encryption, HTTP clients, SQL, the front end, the
-- database migrations and the deployment files. Texts are compared whole, but for `lower`, `strip`
-- and `split`, where lower case is that of ASCII.
pub mod Access
pub mod Accounts
pub mod Base
pub mod Compliance
pub mod Connectors
pub mod Counters
pub mod Networks
pub mod PasswordPolicy
pub mod Pii
pub mod RateLimit
pub mod Reconciler
pub mod Redis
pub mod Retention
pub mod Risk
pub mod ScanAuthorization
pub mod ScanTasks
pub mod Scanner
pub mod Sync
pub mod Tokens
pub mod Webhooks
