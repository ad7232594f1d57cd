-- ===== src/Worker/Consent.antt =====
-- Whom an escalation of backend/app/worker/scheduler.py reaches.
use k8s_alert_manager.Prelude.{
  ℕ, ◌≡◌, ◌⊎◌, inl, inr, true, false, List, [], ◌∷◌, filter_map, is_some, All, All-filtered,
  filter_map-Any, All-map, ◌==◌, ==_iff, Bool-cases, arith,
}
use k8s_alert_manager.Runtime.{Runtime}
use k8s_alert_manager.Models.Alert.{AlertEvent}
use k8s_alert_manager.Models.Channel.{Channel}
use k8s_alert_manager.Models.Routing.{RoutingRule}
use k8s_alert_manager.Models.Outbox.{Trigger, NotificationOutbox}
use k8s_alert_manager.Models.Scheduled.{ScheduledAction}
use k8s_alert_manager.Models.Db.{Db, get_channel}
use k8s_alert_manager.Exec.Keeps.{Steps}
use k8s_alert_manager.Route.Growth.{Grows, Grows-preorder, Grows-weaken}
use k8s_alert_manager.Worker.Handlers.{
  live_event, live_rule, escalation_on, may_escalate, escalation_targets, escalate_to,
  dispatch_escalation, firing_payload,
}
use k8s_alert_manager.Worker.Reach.{
  IsLive, IsRowFor, live_event-IsLive, live_event-same, live_rule-same, live_rule-IsRuleOf,
  IsRuleOf, IsNamed, behind-Grows, stage_each-Grows,
}

-- One of the rule's escalation channels, that is not deleted and is the rule's team's own or open to
-- other teams.
abbrev pub Consents : Db → RoutingRule → Channel → Type 0
Consents db rule c =
    IsNamed db rule.escalation_channels c
    × (is_some c.deleted_at ≡ false)
    × ((c.team_id ≡ rule.team_id) ⊎ (c.allow_cross_team_escalation ≡ true))

-- The row is for the event of the action and for a channel that consents.
abbrev pub Escalates : Db → ScheduledAction → NotificationOutbox → Type 0
Escalates db a r =
    (e : AlertEvent) × (rule : RoutingRule) × (c : Channel) × IsLive db a e
    × IsRuleOf db a rule
    × (escalation_on rule ≡ true)
    × Consents db rule c
    × IsRowFor Trigger.escalation e c r

escalation_targets-Consents :
    (db : Db) (rule : RoutingRule) → All (Consents db rule) (escalation_targets db rule)
unfolding escalation_targets
escalation_targets-Consents db rule =
    All-map _ _ (escalation_targets db rule) (λ c h. consents c h.0 h.1)
      (All-filtered (IsNamed db rule.escalation_channels) (may_escalate rule)
        (filter_map (get_channel db) rule.escalation_channels)
        (filter_map-Any (get_channel db) rule.escalation_channels))
  where
    consents :
        (c : Channel)
        → IsNamed db rule.escalation_channels c
        → may_escalate rule c ≡ true
        → Consents db rule c
    consents c named h = (
      named,
      ground (arith, h),
      elim (Bool-cases (c.team_id == rule.team_id)) [
        | inl own ↦ inl ((==_iff c.team_id rule.team_id).0 own)
        | inr other ↦ inr (ground (arith, h, other))
      ],
    )

-- An escalation, returning or raising, leaves every outbox row as it was and adds rows behind them:
-- escalation rows for the event of the action, which is firing and not acknowledged, under the rule
-- of the action, which is enabled with its escalation, each for a channel that is one of the rule's
-- escalation channels, is not deleted, and is of the rule's team or consents to cross-team escalation
-- now.
pub dispatch_escalation-Grows :
    (rt : Runtime) (now : ℕ) (a : ScheduledAction) (db : Db)
    → Grows (Escalates db a) db (dispatch_escalation rt now a db).1
unfolding dispatch_escalation
dispatch_escalation-Grows rt now a db =
    behind-Grows _ (live_event a) _ db (live_event-same db a) λ e live.
      behind-Grows _ (live_rule escalation_on a) _ db (live_rule-same db escalation_on a)
        λ rule found.
          Grows-weaken _ _ db _
            (λ r (c, consents, row). (
              e,
              rule,
              c,
              live_event-IsLive db a e live,
              (live_rule-IsRuleOf db escalation_on a rule found).0,
              (live_rule-IsRuleOf db escalation_on a rule found).1,
              consents,
              row,
            ))
            ((escalate_to-Grows e rule (escalation_targets db rule)
                (escalation_targets-Consents db rule)).at
              db)
  where
    escalate_to-Grows :
        (e : AlertEvent) (rule : RoutingRule) (cs : List Channel)
        → All (Consents db rule) cs
        → Steps
            (Grows (λ r. (c : Channel) × Consents db rule c × IsRowFor Trigger.escalation e c r))
            (escalate_to rt now e rule cs)
    escalate_to-Grows e rule [] q =
        unfold escalate_to in record { at = λ db. (Grows-preorder _).same db }
    escalate_to-Grows e rule (c ∷ cs) q =
        unfold escalate_to in
        record {
          at = λ d.
              (stage_each-Grows rt now Trigger.escalation e rule (firing_payload rt now d e)
                  (Consents db rule) (c ∷ cs) q).at
                d;
        }
