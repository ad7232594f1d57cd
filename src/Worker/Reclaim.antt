-- ===== src/Worker/Reclaim.antt =====
-- Claims of timers: `claim_due_actions` and `recover_stale_claims` of backend/app/worker/scheduler.py.
use k8s_alert_manager.Prelude.{ℕ, ◌+◌, ◌≤◌, ◌≡◌, true, false, elem, All, All-updated, arith}
use k8s_alert_manager.Models.Scheduled.{ScheduledAction}
use k8s_alert_manager.Models.Db.{Db}
use k8s_alert_manager.Worker.Actions.{claimed_at, claim_due_actions, is_abandoned}

-- A claimed row is not abandoned before its lease is over, and the claim itself restarts the lease.
claimed_at-fresh :
    (lease_timeout now later : ℕ) (a : ScheduledAction)
    → later ≤ now + lease_timeout
    → is_abandoned lease_timeout later (claimed_at now a) ≡ false
claimed_at-fresh lease_timeout now later a h = unfold is_abandoned in ground arith

-- A row that a claim has just taken, however long it was overdue, is not one that a recovery up to
-- the lease timeout later gives back.
pub claim_due_actions-fresh :
    (lease_timeout now later limit : ℕ) (db : Db)
    → later ≤ now + lease_timeout
    → let (ids, db') = claim_due_actions now limit db in
      All (λ a. elem a.id ids ≡ true → is_abandoned lease_timeout later a ≡ false) db'.actions
unfolding claim_due_actions
claim_due_actions-fresh lease_timeout now later limit db h =
    let ids = (claim_due_actions now limit db).0 in
    All-updated _ (λ a. elem a.id ids) (claimed_at now) db.actions
      (λ a e k. claimed_at-fresh lease_timeout now later a h) (λ a e k. absurd (ground arith))
