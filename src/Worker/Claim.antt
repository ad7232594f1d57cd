-- ===== src/Worker/Claim.antt =====
-- `claim_batch` and `recover_stale_leases` of backend/app/worker/outbox.py.
use k8s_alert_manager.Prelude.{
  ℕ, ◌+◌, String, Bool, false, ◌&&◌, Option, none, some, List, [], ◌∷◌, map, filter, take, count,
  elem, leb, ltb, update_where, if◌then◌else◌,
}
use k8s_alert_manager.Models.Outbox.{
  NotificationOutbox, pending, in_progress, is_pending, is_in_progress,
}
use k8s_alert_manager.Models.Db.{Db}

-- ORDER BY next_attempt_at
unfoldable pub insert_by_due :
    NotificationOutbox → List NotificationOutbox → List NotificationOutbox
insert_by_due r [] = r ∷ []
insert_by_due r (x ∷ xs) =
    let later = insert_by_due r xs in
    if leb r.next_attempt_at x.next_attempt_at then r ∷ x ∷ xs else x ∷ later

unfoldable pub order_by_due : List NotificationOutbox → List NotificationOutbox
unfolding insert_by_due
order_by_due [] = []
order_by_due (r ∷ rs) = insert_by_due r (order_by_due rs)

unfoldable pub is_due : ℕ → NotificationOutbox → Bool
unfolding is_pending
is_due now r = is_pending r.status && leb r.next_attempt_at now

abbrev pub claimed_by : String → ℕ → NotificationOutbox → NotificationOutbox
claimed_by worker now r = record r {
  status = in_progress;
  locked_by = some worker;
  locked_at = some now;
}

-- The ids of the rows that a claim takes.
unfoldable pub due_ids : Db → ℕ → ℕ → List ℕ
unfolding order_by_due is_due
due_ids db now limit = map (λ r. r.id) (take limit (order_by_due (filter (is_due now) db.outbox)))

-- The ids of the claimed rows, and the database after the commit.
unfoldable pub claim_batch : String → ℕ → ℕ → Db → List ℕ × Db
unfolding due_ids
claim_batch worker now limit db =
    let ids = due_ids db now limit in
    (
      ids,
      record db { outbox = update_where (λ r. elem r.id ids) (claimed_by worker now) db.outbox },
    )

abbrev pub default_lease_timeout : ℕ
default_lease_timeout = 300000000

-- locked_at < now - lease_timeout, which is locked_at + lease_timeout < now; NULL is not below.
abbrev pub locked_before : ℕ → ℕ → Option ℕ → Bool
locked_before lease_timeout now none = false
locked_before lease_timeout now (some t) = ltb (t + lease_timeout) now

unfoldable pub is_stale : ℕ → ℕ → NotificationOutbox → Bool
unfolding is_in_progress
is_stale lease_timeout now r =
    is_in_progress r.status && locked_before lease_timeout now r.locked_at

abbrev pub released : NotificationOutbox → NotificationOutbox
released r = record r { status = pending; locked_by = none; locked_at = none }

unfoldable pub recover_stale_leases : ℕ → ℕ → Db → ℕ × Db
unfolding is_stale
recover_stale_leases lease_timeout now db = (
  count (is_stale lease_timeout now) db.outbox,
  record db { outbox = update_where (is_stale lease_timeout now) released db.outbox },
)
