-- ===== src/Worker/Dispatch.antt =====
-- `dispatch` and `run_scheduler_tick` of backend/app/worker/scheduler.py.
use k8s_alert_manager.Prelude.{ℕ, ◌+◌, Option, none, some, List, [], ◌∷◌, length}
use k8s_alert_manager.Runtime.{Runtime}
use k8s_alert_manager.Models.Scheduled.{
  ScheduledAction, Kind, escalation, renotify, digest_flush, Status,
}
use k8s_alert_manager.Models.Db.{Db, get_action, set_action}
use k8s_alert_manager.Exec.{Result, ok, err, skip}
use k8s_alert_manager.Staging.{minutes}
use k8s_alert_manager.Worker.Actions.{claim_due_actions}
use k8s_alert_manager.Worker.Handlers.{dispatch_escalation, dispatch_renotify}
use k8s_alert_manager.Worker.Digest.{dispatch_digest_flush}

abbrev pub retry_backoff : ℕ
retry_backoff = minutes 1

abbrev pub finished : Status → ℕ → ScheduledAction → ScheduledAction
finished status now a = record a { status = status; processed_at = some now }

abbrev pub retried : ℕ → ScheduledAction → ScheduledAction
retried now a = record a { status = Status.pending; due_at = now + retry_backoff }

-- What the `try` of `dispatch` does with the answer of the handler; all of it is committed, with
-- whatever the handler has staged before it raised.
unfoldable pub settle_action : ℕ → ℕ → Result (Unit {0}) × Db → Db
settle_action now id (ok done, db) = set_action id (finished Status.done now) db
settle_action now id (err skip, db) = set_action id (finished Status.cancelled now) db
settle_action now id (err e, db) = set_action id (retried now) db

module _ (rt : Runtime) (now : ℕ) where
  -- The handler of a kind.
  abbrev pub handle : Kind → ScheduledAction → Db → Db
  handle escalation a db = settle_action now a.id (dispatch_escalation rt now a db)
  handle renotify a db = settle_action now a.id (dispatch_renotify rt now a db)
  handle digest_flush a db = settle_action now a.id (dispatch_digest_flush now a db)
  handle (Kind.unknown k) a db = set_action a.id (finished Status.done now) db

  unfoldable pub dispatch : ScheduledAction → Db → Db
  unfolding settle_action dispatch_escalation dispatch_renotify dispatch_digest_flush
  dispatch a db = handle a.kind a db

abbrev pub dispatch_found : Runtime → ℕ → Option ScheduledAction → Db → Db
dispatch_found rt now none db = db
dispatch_found rt now (some a) db = dispatch rt now a db

-- Each action in a session of its own, with a clock of its own.
unfoldable pub dispatch_all : Runtime → (ℕ → ℕ) → List ℕ → Db → Db
unfolding dispatch
dispatch_all rt clock [] db = db
dispatch_all rt clock (id ∷ ids) db =
    dispatch_all rt clock ids (dispatch_found rt (clock id) (get_action db id) db)

unfoldable pub run_scheduler_tick : Runtime → (ℕ → ℕ) → ℕ → ℕ → Db → ℕ × Db
unfolding claim_due_actions dispatch_all
run_scheduler_tick rt clock now limit db =
    let (ids, claimed) = claim_due_actions now limit db in
    (length ids, dispatch_all rt clock ids claimed)
