-- ===== src/Worker/Dispatched.antt =====
-- What `dispatch` of backend/app/worker/scheduler.py leaves behind.
use k8s_alert_manager.Prelude.{
  ℕ, ◌+◌, ◌≡◌, refl, ◌⊎◌, inl, inr, some, ◌==◌, ==_iff, All, All-updated, arith,
}
use k8s_alert_manager.Runtime.{Runtime}
use k8s_alert_manager.Models.Scheduled.{
  ScheduledAction, Kind, escalation, renotify, digest_flush, Status, pending, done, cancelled,
}
use k8s_alert_manager.Models.Db.{Db, set_action}
use k8s_alert_manager.Exec.{
  http, multiple_results, integrity, overflow, assertion, skip, failure, Result, ok, err,
}
use k8s_alert_manager.Worker.Handlers.{dispatch_escalation, dispatch_renotify}
use k8s_alert_manager.Worker.Digest.{dispatch_digest_flush}
use k8s_alert_manager.Worker.Dispatch.{
  retry_backoff, finished, retried, settle_action, handle, dispatch,
}

-- Done or cancelled, with the time of it; or waiting to be tried again, one minute later.
pub data Concluded (now : ℕ) (a : ScheduledAction) : Type 0 where
  finishes :
      (a.status ≡ done) ⊎ (a.status ≡ cancelled) → a.processed_at ≡ some now → Concluded now a
  retries : a.status ≡ pending → a.due_at ≡ now + retry_backoff → Concluded now a

set_action-Concluded :
    (now id : ℕ) (f : ScheduledAction → ScheduledAction) (db : Db)
    → ((a : ScheduledAction) → Concluded now (f a))
    → All (λ a. a.id ≡ id → Concluded now a) (set_action id f db).actions
set_action-Concluded now id f db h =
    All-updated _ (λ a. a.id == id) f db.actions (λ a e same. h a)
      (λ a e same. absurd (ground (arith, (==_iff a.id id).1 same)))

settle_action-Concluded :
    (now id : ℕ) (res : Result (Unit {0}) × Db)
    → All (λ a. a.id ≡ id → Concluded now a) (settle_action now id res).actions
unfolding settle_action
settle_action-Concluded now id (ok u, db) =
    set_action-Concluded now id (finished Status.done now) db (λ a. finishes (inl refl) refl)
settle_action-Concluded now id (err skip, db) =
    set_action-Concluded now id (finished Status.cancelled now) db (λ a. finishes (inr refl) refl)
settle_action-Concluded now id (err multiple_results, db) =
    set_action-Concluded now id (retried now) db (λ a. retries refl refl)
settle_action-Concluded now id (err integrity, db) =
    set_action-Concluded now id (retried now) db (λ a. retries refl refl)
settle_action-Concluded now id (err overflow, db) =
    set_action-Concluded now id (retried now) db (λ a. retries refl refl)
settle_action-Concluded now id (err assertion, db) =
    set_action-Concluded now id (retried now) db (λ a. retries refl refl)
settle_action-Concluded now id (err (http status_code), db) =
    set_action-Concluded now id (retried now) db (λ a. retries refl refl)
settle_action-Concluded now id (err failure, db) =
    set_action-Concluded now id (retried now) db (λ a. retries refl refl)

-- Whatever its kind and whatever the handler answers or raises, a dispatched action is afterwards
-- done or cancelled, stamped with the time, or pending again and due one minute later; it is never
-- left claimed.
pub dispatch-Concluded :
    (rt : Runtime) (now : ℕ) (a : ScheduledAction) (db : Db)
    → All (λ x. x.id ≡ a.id → Concluded now x) (dispatch rt now a db).actions
unfolding dispatch
dispatch-Concluded rt now a db = by_kind a.kind
  where
    by_kind : (k : Kind) → All (λ x. x.id ≡ a.id → Concluded now x) (handle rt now k a db).actions
    by_kind escalation = settle_action-Concluded now a.id (dispatch_escalation rt now a db)
    by_kind renotify = settle_action-Concluded now a.id (dispatch_renotify rt now a db)
    by_kind digest_flush = settle_action-Concluded now a.id (dispatch_digest_flush now a db)
    by_kind (Kind.unknown k) =
        set_action-Concluded now a.id (finished Status.done now) db (λ x. finishes (inl refl) refl)
