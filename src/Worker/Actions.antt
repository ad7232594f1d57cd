-- ===== src/Worker/Actions.antt =====
-- `claim_due_actions` and `recover_stale_claims` of backend/app/worker/scheduler.py.
use k8s_alert_manager.Prelude.{
  ℕ, ◌+◌, Bool, not, ◌&&◌, List, [], ◌∷◌, map, filter, take, count, elem, leb, ltb, is_some,
  update_where, if◌then◌else◌,
}
use k8s_alert_manager.Models.Scheduled.{ScheduledAction, Status, is_pending, is_claimed}
use k8s_alert_manager.Models.Db.{Db}

-- ORDER BY due_at
unfoldable pub insert_action : ScheduledAction → List ScheduledAction → List ScheduledAction
insert_action a [] = a ∷ []
insert_action a (x ∷ xs) =
    let later = insert_action a xs in if leb a.due_at x.due_at then a ∷ x ∷ xs else x ∷ later

unfoldable pub order_actions : List ScheduledAction → List ScheduledAction
unfolding insert_action
order_actions [] = []
order_actions (a ∷ rest) = insert_action a (order_actions rest)

unfoldable pub is_action_due : ℕ → ScheduledAction → Bool
unfolding is_pending
is_action_due now a = is_pending a.status && leb a.due_at now

-- The claim moves `due_at`, which is the clock of the lease.
abbrev pub claimed_at : ℕ → ScheduledAction → ScheduledAction
claimed_at now a = record a { status = Status.claimed; due_at = now }

unfoldable pub due_action_ids : Db → ℕ → ℕ → List ℕ
unfolding order_actions is_action_due
due_action_ids db now limit =
    map (λ a. a.id) (take limit (order_actions (filter (is_action_due now) db.actions)))

-- The ids of the claimed rows, and the database after the commit.
unfoldable pub claim_due_actions : ℕ → ℕ → Db → List ℕ × Db
unfolding due_action_ids
claim_due_actions now limit db =
    let ids = due_action_ids db now limit in
    (ids, record db { actions = update_where (λ a. elem a.id ids) (claimed_at now) db.actions })

abbrev pub claim_lease_timeout : ℕ
claim_lease_timeout = 300000000

-- due_at < now - lease_timeout, which is due_at + lease_timeout < now
unfoldable pub is_abandoned : ℕ → ℕ → ScheduledAction → Bool
unfolding is_claimed
is_abandoned lease_timeout now a =
    is_claimed a.status && not (is_some a.processed_at) && ltb (a.due_at + lease_timeout) now

abbrev pub reclaimable : ScheduledAction → ScheduledAction
reclaimable a = record a { status = Status.pending }

unfoldable pub recover_stale_claims : ℕ → ℕ → Db → ℕ × Db
unfolding is_abandoned
recover_stale_claims lease_timeout now db = (
  count (is_abandoned lease_timeout now) db.actions,
  record db { actions = update_where (is_abandoned lease_timeout now) reclaimable db.actions },
)
