-- ===== src/Lib.antt =====
-- k8s-alert-manager: alert ingest, routing and delivery of the backend (backend/app), as functions on
-- the database.
--
-- An Alertmanager webhook is ingested (services/ingest.py): each alert is a heartbeat of its cluster,
-- a repeat, or a transition of an event, and a transition is routed (services/routing.py). Routing
-- evaluates the rules of the owning team, suppress rules first, then the rules of the teams that a
-- share (services/sharing.py) lets see the event, and stages outbox rows, timers for escalations
-- and, under storm control, timers for digests. The outbox worker (worker/outbox.py) claims due rows
-- and delivers them; the scheduler (worker/scheduler.py) claims due timers and dispatches them; the
-- heartbeat sweep (worker/heartbeat.py) injects an alert when a cluster has gone silent.
-- The live feed (services/events_hub.py) hands committed transitions to the subscribers' queues; the
-- API publishes to it after a commit. A request of the API (api/alerts.py) passes the checks of
-- api/deps.py, changes the tables, writes an audit row and commits, or is refused and rolled back. A
-- login (services/auth_sync.py) brings a user's memberships in line with the directory, and the purge
-- (services/retention.py) deletes what is past its window.
--
-- Which file models what:
--   Prelude       tests on native numbers, lists, tables as lists of rows, predicates on lists
--   Text          decimal numbers, rstrip and slices of Python's str
--   Runtime       what is taken from outside: re, str.lower, quote, ISO timestamps, settings
--   Models        the tables of models/*.py and the notification of channels/base.py; Models/Db is
--                 the whole database, a list of rows for each table in the order of insertion
--   Exec          code in a session: a state, and a result or an exception; Exec/Keeps and
--                 Exec/Returns carry relations and results through a composition
--   Routing       services/routing.py: _compile_patterns, compile_matchers and compile_rule (Compile),
--                 matcher_matches, evaluate_compiled and evaluate (Evaluate), preview_rule (Preview)
--   Sharing       services/sharing.py and build_transient_matchers
--   Staging       stage_outbox_row, _channel_needs_parking and _ensure_digest_flush_scheduled
--   Route         _build_notification and services/grafana.py (Notification), _load_team_rules,
--                 _matched_notify_channels and _stage_outbox (Owner), escalation and renotify timers
--                 and cancel_pending (Timers), _route_shared_view and route_event (Event)
--   Templating    resolve_template and render of services/templating.py
--   Worker        worker/outbox.py: claim_batch and recover_stale_leases (Claim), the try block of
--                 deliver (Attempt), _mark_dead, _mark_delivery_failure, deliver and run_tick
--                 (Deliver); worker/scheduler.py: claim_due_actions and recover_stale_claims
--                 (Actions), _dispatch_escalation and _dispatch_renotify (Handlers),
--                 _dispatch_digest_flush (Digest), dispatch and run_scheduler_tick (Dispatch)
--   Ingest        services/ingest.py: the data and the lookups (Ingest), _ingest_one and
--                 ingest_webhook (Alerts)
--   Heartbeat     worker/heartbeat.py: _check_and_flip_one and sweep
--   Feed          services/events_hub.py: Hub with subscribe, unsubscribe, publish and _deliver, and the
--                 step of _stream in api/events.py that takes an item
--   Api           api/deps.py (Access) and the requests of api/alerts.py: acknowledgement, assignee and test
--                 alerts (Alerts), comments (Comments), the history (History) and its export (Export),
--                 with what they answer (Payload); api/routes.py (Routes) with its checks
--                 (Routes/Checks); api/shares.py (Shares); api/teams.py (Teams, Members);
--                 services/audit.py and the request's session (Api)
--   Accounts      services/auth_sync.py: sync_user and _sync_memberships
--   Settings      services/settings.py
--   Retention     services/retention.py: purge and its batches
--   Examples      runs at concrete inputs
-- The other modules hold the proofs and are named for what they prove.
--
-- How the state corresponds to the code. Time is in microseconds from
-- datetime.min, and an addition or subtraction of a window that leaves the range of datetime is an
-- OverflowError where the window is a stored number without a bound. The clock is read once for each
-- operation and is its argument, and so is the jitter of a retry; for a tick they are functions of
-- the row. A session's flushed changes are the database of the model, so that a savepoint that fails
-- gives the database before it; a call that raises gives the database at that point beside the error,
-- and the caller rolls it back or commits it as the code does. Primary keys are drawn from counters. A
-- SELECT without ORDER BY gives the order of insertion, an ORDER BY is a stable insertion sort. Of the
-- claims the SQLite branch is modelled; the PostgreSQL branch takes the same rows. NULL is none, and a
-- comparison with NULL fails. A time less a window is compared by adding the window on the other side.
-- Columns that no modelled operation reads or writes are left out, and so is logging, the detail of an
-- audit row and the text of an HTTP error. A status, a kind or a mode that the code tests for some
-- texts is a data type of those and of the other texts.
-- Other sessions appear where the code guards against them: as a function that an ingest applies to
-- the database between looking an event up and inserting it.
--
-- What is a parameter: regular expressions, where a compiled pattern is its source text; the channel
-- classes with the registry, Fernet and pydantic, which answer with the text of an exception where
-- they raise one; the Jinja engine; the directory; the clients of the clusters, for the deletion
-- of a team; the database's ILIKE. No hypothesis is made about them.
--
-- Bounds: all loops go over the rows or alerts that are there, by structural recursion, so there is no
-- fuel, but for two loops: the export of a history has one round for each row of its cap, and the purge
-- one batch for each row to delete and one more, and both are shown to be enough. Attempts are bounded
-- by eight.
--
-- Not modelled: the other requests of the HTTP API, reports, statistics, the clients of
-- Kubernetes, Prometheus and Alertmanager, LDAP, and the loop of sleeps around the ticks.
pub mod Prelude
pub mod Text
pub mod Runtime
pub mod Models
pub mod Exec
pub mod Routing
pub mod Sharing
pub mod Staging
pub mod Route
pub mod Templating
pub mod Worker
pub mod Ingest
pub mod Heartbeat
pub mod Feed
pub mod Api
pub mod Accounts
pub mod Settings
pub mod Retention
pub mod Examples
