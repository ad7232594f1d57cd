-- ===== src/Worker/Cycles.antt =====
-- What a cycle of the renotifications of backend/app/worker/scheduler.py adds to the outbox.
use k8s_alert_manager.Prelude.{
  ℕ, ◌≡◌, true, false, not, is_some, All, filter, All-filtered, filter_map-Any, All-map, arith,
}
use k8s_alert_manager.Runtime.{Runtime}
use k8s_alert_manager.Models.Alert.{AlertEvent}
use k8s_alert_manager.Models.Channel.{Channel}
use k8s_alert_manager.Models.Routing.{RoutingRule}
use k8s_alert_manager.Models.Outbox.{Trigger, NotificationOutbox}
use k8s_alert_manager.Models.Scheduled.{ScheduledAction}
use k8s_alert_manager.Models.Db.{Db, get_channel}
use k8s_alert_manager.Exec.Keeps.{Steps-bind}
use k8s_alert_manager.Route.Growth.{Grows, Grows-preorder, Grows-weaken, Steps-outbox}
use k8s_alert_manager.Worker.Handlers.{
  live_event, live_rule, renotify_on, renotify_targets, dispatch_renotify, firing_payload,
}
use k8s_alert_manager.Route.Owner.{rule_channels}
use k8s_alert_manager.Route.Timers.{schedule_renotify}
use k8s_alert_manager.Worker.Reach.{
  IsLive, IsRowFor, live_event-IsLive, live_event-same, live_rule-same, live_rule-IsRuleOf,
  IsRuleOf, IsNamed, behind-Grows, stage_each-Grows,
}

-- One of the rule's channels, that is not deleted.
abbrev pub IsTarget : Db → RoutingRule → Channel → Type 0
IsTarget db rule c = IsNamed db rule.channels c × (is_some c.deleted_at ≡ false)

-- The row is for the event of the action and for a channel of its rule that is not deleted, with a
-- trigger of its own for this action.
abbrev pub Renotifies : Db → ScheduledAction → NotificationOutbox → Type 0
Renotifies db a r =
    (e : AlertEvent) × (rule : RoutingRule) × (c : Channel) × IsLive db a e
    × IsRuleOf db a rule
    × (renotify_on rule ≡ true)
    × IsTarget db rule c
    × IsRowFor (Trigger.renotify a.id) e c r

outbox-renotified :
    (now event_id : ℕ) (rule : RoutingRule) (db : Db)
    → (schedule_renotify now event_id rule db).1.outbox ≡ db.outbox
unfolding schedule_renotify
outbox-renotified now event_id rule db = ground arith

renotify_targets-IsTarget :
    (db : Db) (rule : RoutingRule) → All (IsTarget db rule) (renotify_targets db rule)
unfolding renotify_targets
renotify_targets-IsTarget db rule =
    All-map _ _ (filter (λ c. not (is_some c.deleted_at)) (rule_channels db rule))
      (λ c h. (h.0, ground (arith, h.1)))
      (All-filtered (IsNamed db rule.channels) (λ c. not (is_some c.deleted_at))
        (rule_channels db rule) (filter_map-Any (get_channel db) rule.channels))

-- A renotification cycle, returning or raising, leaves every outbox row as it was and adds rows behind
-- them: rows with the trigger of this action for its event, which is firing and not acknowledged,
-- under the rule of the action, which is enabled with an interval, each for a channel that is one of
-- the rule's and not deleted.
pub dispatch_renotify-Grows :
    (rt : Runtime) (now : ℕ) (a : ScheduledAction) (db : Db)
    → Grows (Renotifies db a) db (dispatch_renotify rt now a db).1
unfolding dispatch_renotify
dispatch_renotify-Grows rt now a db =
    behind-Grows _ (live_event a) _ db (live_event-same db a) λ e live.
      behind-Grows _ (live_rule renotify_on a) _ db (live_rule-same db renotify_on a) λ rule found.
        Grows-weaken _ _ db _
          (λ r (c, there, row). (
            e,
            rule,
            c,
            live_event-IsLive db a e live,
            (live_rule-IsRuleOf db renotify_on a rule found).0,
            (live_rule-IsRuleOf db renotify_on a rule found).1,
            there,
            row,
          ))
          ((Steps-bind (Grows-preorder _) _ _
              (stage_each-Grows rt now (Trigger.renotify a.id) e rule (firing_payload rt now db e)
                (IsTarget db rule) (renotify_targets db rule) (renotify_targets-IsTarget db rule))
              λ done. Steps-outbox _ _ (outbox-renotified now e.id rule)).at
            db)
