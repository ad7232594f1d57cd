-- ===== src/Route/Once.antt =====
-- One timer for each event and rule: `schedule_renotify` of backend/app/worker/scheduler.py and the
-- loop of `_schedule_escalations` of backend/app/services/routing.py.
use k8s_alert_manager.Prelude.{
  ℕ, zero, suc, ◌≡◌, refl, Bool, true, [], ◌∷◌, count, count-append, ==_refl, arith,
}
use k8s_alert_manager.Models.Routing.{RoutingRule}
use k8s_alert_manager.Models.Scheduled.{Kind, is_renotify, is_pending}
use k8s_alert_manager.Models.Db.{Db}
use k8s_alert_manager.Exec.{ok}
use k8s_alert_manager.Staging.{found_one}
use k8s_alert_manager.Route.Timers.{timer, pending_timer, schedule_once, schedule_renotify}

timer-pending :
    (is_kind : Kind → Bool) (kind : Kind) (id event_id rule_id due_at : ℕ)
    → is_kind kind ≡ true
    → pending_timer is_kind event_id rule_id (timer kind id event_id rule_id due_at) ≡ true
unfolding pending_timer is_pending
timer-pending is_kind kind id event_id rule_id due_at h =
    ground (arith, ==_refl event_id, ==_refl rule_id)

schedule_once-one :
    (is_kind : Kind → Bool) (kind : Kind) (event_id rule_id due_at : ℕ) (db : Db)
    → is_kind kind ≡ true
    → (schedule_once is_kind kind event_id rule_id due_at db).0 ≡ ok tt
    → count
        (pending_timer is_kind event_id rule_id)
        (schedule_once is_kind kind event_id rule_id due_at db).1.actions
      ≡ 1
unfolding schedule_once found_one
schedule_once-one is_kind kind event_id rule_id due_at db own h =
    by_count (count (pending_timer is_kind event_id rule_id) db.actions) refl
  where
    by_count :
        (n : ℕ)
        → count (pending_timer is_kind event_id rule_id) db.actions ≡ n
        → count
            (pending_timer is_kind event_id rule_id)
            (schedule_once is_kind kind event_id rule_id due_at db).1.actions
          ≡ 1
    by_count zero e = ground (
      arith,
      timer-pending is_kind kind db.next_action_id event_id rule_id due_at own,
      count-append (pending_timer is_kind event_id rule_id) db.actions
          (timer kind db.next_action_id event_id rule_id due_at ∷ []),
    )
    by_count (suc zero) e = ground arith
    by_count (suc (suc n)) e = ground arith

-- When a renotification is scheduled without an exception, exactly one is pending for the event and
-- the rule, whether there was one before or not.
pub schedule_renotify-one :
    (now event_id : ℕ) (rule : RoutingRule) (db : Db)
    → (schedule_renotify now event_id rule db).0 ≡ ok tt
    → count
        (pending_timer is_renotify event_id rule.id)
        (schedule_renotify now event_id rule db).1.actions
      ≡ 1
unfolding schedule_renotify is_renotify
schedule_renotify-one now event_id rule db h =
    schedule_once-one is_renotify Kind.renotify event_id rule.id _ db refl h
