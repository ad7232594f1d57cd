-- ===== src/Worker/Handlers.antt =====
-- `_dispatch_escalation` and `_dispatch_renotify` of backend/app/worker/scheduler.py.
use k8s_alert_manager.Prelude.{
  ℕ, Bool, not, ◌&&◌, ◌||◌, Option, none, some, List, [], ◌∷◌, filter, filter_map, is_some, ◌==◌,
  if◌then◌else◌,
}
use k8s_alert_manager.Runtime.{Runtime}
use k8s_alert_manager.Models.Alert.{is_firing, firing, AlertEvent}
use k8s_alert_manager.Models.Routing.{RoutingRule}
use k8s_alert_manager.Models.Channel.{Channel}
use k8s_alert_manager.Models.Outbox.{Trigger, notification, Payload}
use k8s_alert_manager.Models.Scheduled.{ScheduledAction}
use k8s_alert_manager.Models.Db.{Db, get_event, get_rule, get_channel}
use k8s_alert_manager.Exec.{Exec, skip, pure, raise, ◌>>=◌, ◌>>◌}
use k8s_alert_manager.Route.Notification.{build_notification_for_event}
use k8s_alert_manager.Route.Owner.{rule_channels}
use k8s_alert_manager.Route.Timers.{or_zero, schedule_renotify}
use k8s_alert_manager.Staging.{stage_outbox_row}

abbrev pub event_or_skip : Option AlertEvent → Exec AlertEvent
event_or_skip none = raise skip
event_or_skip (some e) =
    if not (is_firing e.status) || is_some e.acknowledged_at then raise skip else pure e

-- The event of an action, if it is still firing and nobody has acknowledged it.
unfoldable pub live_event : ScheduledAction → Exec AlertEvent
unfolding is_firing
live_event a = elim a.alert_event_id [
  | none ↦ raise skip
  | some id ↦ λ db. event_or_skip (get_event db id) db
]

abbrev pub rule_or_skip : (RoutingRule → Bool) → Option RoutingRule → Exec RoutingRule
rule_or_skip usable none = raise skip
rule_or_skip usable (some rule) = if usable rule then pure rule else raise skip

unfoldable pub live_rule : (RoutingRule → Bool) → ScheduledAction → Exec RoutingRule
live_rule usable a = elim a.routing_rule_id [
  | none ↦ raise skip
  | some id ↦ λ db. rule_or_skip usable (get_rule db id) db
]

abbrev pub escalation_on : RoutingRule → Bool
escalation_on rule = rule.enabled && rule.escalation_enabled

abbrev pub renotify_on : RoutingRule → Bool
renotify_on rule = rule.enabled && not (or_zero rule.renotify_interval_minutes == 0)

-- A channel of another team needs that team's consent, now and not only when the rule was saved.
abbrev pub may_escalate : RoutingRule → Channel → Bool
may_escalate rule c =
    not (is_some c.deleted_at) && (c.team_id == rule.team_id || c.allow_cross_team_escalation)

unfoldable pub escalation_targets : Db → RoutingRule → List Channel
escalation_targets db rule =
    filter (may_escalate rule) (filter_map (get_channel db) rule.escalation_channels)

unfoldable pub renotify_targets : Db → RoutingRule → List Channel
renotify_targets db rule = filter (λ c. not (is_some c.deleted_at)) (rule_channels db rule)

module _ (rt : Runtime) (now : ℕ) where
  -- The loop over the channels; what each insert answers is only counted for the log.
  unfoldable pub stage_each :
      AlertEvent → RoutingRule → Trigger → Payload → List Channel → Exec (Unit {0})
  stage_each e rule trigger payload [] = pure tt
  stage_each e rule trigger payload (c ∷ cs) = do
    inserted ← stage_outbox_row now e.id (some rule.id) c e.team_id trigger payload
    stage_each e rule trigger payload cs

  abbrev pub firing_payload : Db → AlertEvent → Payload
  firing_payload db e = notification (build_notification_for_event rt db e (some firing))

  unfoldable pub escalate_to : AlertEvent → RoutingRule → List Channel → Exec (Unit {0})
  escalate_to e rule [] = raise skip
  escalate_to e rule (c ∷ cs) =
      λ db. stage_each e rule Trigger.escalation (firing_payload db e) (c ∷ cs) db

  unfoldable pub dispatch_escalation : ScheduledAction → Exec (Unit {0})
  unfolding live_event live_rule escalation_targets escalate_to
  dispatch_escalation a = do
    e ← live_event a
    rule ← live_rule escalation_on a
    (λ db. escalate_to e rule (escalation_targets db rule) db)

  -- Every cycle has a trigger of its own, after the id of its action.
  unfoldable pub dispatch_renotify : ScheduledAction → Exec (Unit {0})
  unfolding live_event live_rule renotify_targets stage_each schedule_renotify
  dispatch_renotify a = do
    e ← live_event a
    rule ← live_rule renotify_on a
    (λ db.
        stage_each e rule (Trigger.renotify a.id) (firing_payload db e) (renotify_targets db rule)
          db)
    schedule_renotify now e.id rule
