-- ===== src/Route/Timers.antt =====
-- `_schedule_escalations` of backend/app/services/routing.py, `schedule_renotify` of
-- backend/app/worker/scheduler.py and `cancel_pending` of backend/app/services/scheduled_actions.py.
use k8s_alert_manager.Prelude.{
  ℕ, ◌+◌, Bool, true, false, not, ◌&&◌, Option, none, some, List, [], ◌∷◌, count, update_where,
  ◌==◌, if◌then◌else◌,
}
use k8s_alert_manager.Runtime.{Runtime}
use k8s_alert_manager.Models.Alert.{EventStatus, is_firing, AlertEvent}
use k8s_alert_manager.Models.Routing.{RoutingRule}
use k8s_alert_manager.Models.Scheduled.{
  ScheduledAction, Kind, is_escalation, is_renotify, is_pending,
}
use k8s_alert_manager.Models.Scheduled
use k8s_alert_manager.Exec.{Exec, ok, pure, ◌>>=◌, ◌>>◌}
use k8s_alert_manager.Routing.Evaluate.{matches_rule}
use k8s_alert_manager.Staging.{minutes, is_value, found_one, add_due}

-- UPDATE scheduled_actions SET status='cancelled' WHERE alert_event_id = ... AND status='pending'
unfoldable pub pending_for : ℕ → ScheduledAction → Bool
unfolding is_pending
pending_for event_id a = is_value event_id a.alert_event_id && is_pending a.status

abbrev pub cancel : ℕ → ScheduledAction → ScheduledAction
cancel now a = record a { status = Scheduled.cancelled; processed_at = some now }

-- The number of cancelled rows, and the new database.
unfoldable pub cancel_pending : ℕ → ℕ → Exec ℕ
unfolding pending_for
cancel_pending now event_id db = (
  ok (count (pending_for event_id) db.actions),
  record db { actions = update_where (pending_for event_id) (cancel now) db.actions },
)

abbrev pub timer : Kind → ℕ → ℕ → ℕ → ℕ → ScheduledAction
timer kind id event_id rule_id due_at = record {
  id = id;
  kind = kind;
  alert_event_id = some event_id;
  routing_rule_id = some rule_id;
  channel_id = none;
  due_at = due_at;
  status = Scheduled.pending;
  processed_at = none;
}

-- A pending timer of one kind for an (event, rule) pair.
unfoldable pub pending_timer : (Kind → Bool) → ℕ → ℕ → ScheduledAction → Bool
unfolding is_pending
pending_timer is_kind event_id rule_id a =
    is_value event_id a.alert_event_id
    && is_value rule_id a.routing_rule_id
    && is_kind a.kind
    && is_pending a.status

abbrev pub add_timer : Kind → ℕ → ℕ → ℕ → Bool → Exec (Unit {0})
add_timer kind event_id rule_id due_at true db = (ok tt, db)
add_timer kind event_id rule_id due_at false db =
    add_due (timer kind db.next_action_id event_id rule_id due_at) db

-- The lookup and the insert that the timers of one kind share.
unfoldable pub schedule_once : (Kind → Bool) → Kind → ℕ → ℕ → ℕ → Exec (Unit {0})
unfolding found_one pending_timer
schedule_once is_kind kind event_id rule_id due_at db =
    (do
      existing ← found_one (count (pending_timer is_kind event_id rule_id) db.actions)
      add_timer kind event_id rule_id due_at existing)
      db

-- A minutes column that may be NULL, read for its truth.
abbrev pub or_zero : Option ℕ → ℕ
or_zero none = 0
or_zero (some n) = n

-- schedule_renotify; its callers test the interval of the rule.
unfoldable pub schedule_renotify : ℕ → ℕ → RoutingRule → Exec (Unit {0})
unfolding schedule_once is_renotify
schedule_renotify now event_id rule =
    schedule_once is_renotify Kind.renotify event_id rule.id
      (now + minutes (or_zero rule.renotify_interval_minutes))

module _ (rt : Runtime) (now : ℕ) (e : AlertEvent) (trigger : EventStatus) where
  abbrev pub escalates : RoutingRule → Bool
  escalates rule =
      rule.escalation_enabled
      && not (or_zero rule.escalation_after_minutes == 0)
      && matches_rule rt e trigger rule

  abbrev pub schedule_escalation : RoutingRule → Exec (Unit {0})
  schedule_escalation rule =
      if escalates rule
      then schedule_once is_escalation Kind.escalation e.id rule.id
          (now + minutes (or_zero rule.escalation_after_minutes))
      else pure tt

  unfoldable pub escalation_loop : List RoutingRule → Exec (Unit {0})
  unfolding schedule_once is_escalation
  escalation_loop [] = pure tt
  escalation_loop (rule ∷ rules) = do schedule_escalation rule; escalation_loop rules

  unfoldable pub schedule_escalations : List RoutingRule → Exec (Unit {0})
  unfolding escalation_loop is_firing
  schedule_escalations rules = if is_firing trigger then escalation_loop rules else pure tt
