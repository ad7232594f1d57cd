-- ===== src/Route/Steps.antt =====
-- A relation between databases that each step of routing satisfies is satisfied by routing:
-- `route_event` of backend/app/services/routing.py, composed from its parts.
use k8s_alert_manager.Prelude.{
  ℕ, ◌≡◌, Bool, true, false, ◌&&◌, Option, none, some, List, [], ◌∷◌, is_empty,
}
use k8s_alert_manager.Runtime.{Runtime}
use k8s_alert_manager.Models.Alert.{EventStatus, is_resolved, AlertEvent}
use k8s_alert_manager.Models.Channel.{Channel}
use k8s_alert_manager.Models.Outbox.{transition, Payload}
use k8s_alert_manager.Models.Routing.{RoutingRule}
use k8s_alert_manager.Models.Share.{AlertShare}
use k8s_alert_manager.Models.Cluster.{Team}
use k8s_alert_manager.Models.Db.{Db}
use k8s_alert_manager.Exec.{assertion, modify}
use k8s_alert_manager.Exec.Keeps.{Steps, IsPreorder, Steps-pure, Steps-raise, Steps-bind, Steps-if}
use k8s_alert_manager.Staging.{stage_outbox_row}
use k8s_alert_manager.Route.Owner.{Matches, stage_outbox}
use k8s_alert_manager.Route.Timers.{cancel_pending, schedule_escalations}
use k8s_alert_manager.Route.Event.{
  route_shared_view, route_shares, mark_or_escalate, stage_all, route_with, route_team,
  route_or_skip, route_event, notify_target, set_suppressed,
}

-- What the parts of routing owe, for one event and trigger.
pub record Parts (R : Db → Db → Type 0) (rt : Runtime) (now : ℕ) (e : AlertEvent)
    (trigger : EventStatus) : Type 0 where
  pub order : IsPreorder R
  pub stages :
      (rule_id : Option ℕ) (channel : Channel) (team_id : ℕ) (payload : Payload)
      → Steps R
          (stage_outbox_row now e.id rule_id channel (some team_id) (transition trigger) payload)
  pub escalations :
      (rules : List RoutingRule) → Steps R (schedule_escalations rt now e trigger rules)
  pub suppresses : (rule_id : ℕ) → Steps R (modify (set_suppressed e.id rule_id))

module _ {R : Db → Db → Type 0} (rt : Runtime) (now : ℕ) (e : AlertEvent) (trigger : EventStatus)
    (parts : Parts R rt now e trigger) where
  stage_outbox-Steps :
      (team_id : ℕ) (payload : Payload) (matches : Matches)
      → Steps R (stage_outbox now e.id trigger team_id payload matches)
  unfolding stage_outbox
  stage_outbox-Steps team_id payload [] = Steps-pure parts.order 0
  stage_outbox-Steps team_id payload ((channel, rule) ∷ rest) =
      Steps-bind parts.order _ _ (parts.stages (some rule.id) channel team_id payload) λ inserted.
        Steps-bind parts.order _ _ (stage_outbox-Steps team_id payload rest)
          λ created. Steps-pure parts.order _

  route_shared_view-Steps :
      (share : AlertShare) (payload : Payload)
      → Steps R (route_shared_view rt now e trigger share payload)
  unfolding route_shared_view
  route_shared_view-Steps share payload = record { at = λ db. (notify _ _).at db }
    where
      notify :
          (blocked : Bool) (matched : Matches)
          → Steps R (notify_target rt now e trigger blocked matched share.target_team_id payload)
      notify true matched = Steps-pure parts.order 0
      notify false [] = Steps-pure parts.order 0
      notify false (m ∷ ms) = stage_outbox-Steps share.target_team_id payload (m ∷ ms)

  route_shares-Steps :
      (payload : Payload) (shares : List AlertShare)
      → Steps R (route_shares rt now e trigger payload shares)
  unfolding route_shares
  route_shares-Steps payload [] = Steps-pure parts.order 0
  route_shares-Steps payload (s ∷ shares) =
      Steps-bind parts.order _ _ (route_shared_view-Steps s payload) λ here.
        Steps-bind parts.order _ _ (route_shares-Steps payload shares)
          λ rest. Steps-pure parts.order _

  stage_all-Steps :
      (team : Option Team) (team_id : ℕ) (matched : Matches) (shares : List AlertShare)
      → Steps R (stage_all rt now e trigger team team_id matched shares)
  unfolding stage_all
  stage_all-Steps none team_id matched shares = Steps-raise parts.order assertion
  stage_all-Steps (some team) team_id matched shares = record {
    at = λ db.
        (Steps-bind parts.order _ _ (stage_outbox-Steps team_id _ matched) λ created.
            Steps-bind parts.order _ _ (route_shares-Steps _ shares)
              λ shared. Steps-pure parts.order _).at
          db;
  }

  mark-Steps :
      (rule : Option RoutingRule) (rules : List RoutingRule)
      → Steps R (mark_or_escalate rt now e trigger rule rules)
  unfolding mark_or_escalate
  mark-Steps (some rule) rules = parts.suppresses rule.id
  mark-Steps none rules = parts.escalations rules

  route_with-Steps :
      (rule : Option RoutingRule) (rules : List RoutingRule) (matched : Matches)
      (shares : List AlertShare) (team : Option Team) (team_id : ℕ)
      → Steps R (route_with rt now e trigger rule rules matched shares team team_id)
  unfolding route_with
  route_with-Steps rule rules matched shares team team_id =
      Steps-bind parts.order _ _ (mark-Steps rule rules) λ marked.
        Steps-if parts.order (is_empty matched && is_empty shares) _ _
          (λ _. Steps-pure parts.order _)
          (λ _.
            Steps-bind parts.order _ _ (stage_all-Steps team team_id matched shares)
              λ staged. Steps-pure parts.order _)

  pub route_or_skip-Steps : (o : Option ℕ) → Steps R (route_or_skip rt now e trigger o)
  unfolding route_team
  route_or_skip-Steps none = Steps-pure parts.order _
  route_or_skip-Steps (some team_id) = record {
    at = λ db. (route_with-Steps _ _ _ _ _ team_id).at db;
  }

  -- With the cancellation of the timers in front.
  pub route_event-Steps :
      (is_resolved trigger ≡ true → Steps R (cancel_pending now e.id))
      → Steps R (route_event rt now e trigger)
  unfolding route_event
  route_event-Steps cancels =
      Steps-bind parts.order _ _
        (Steps-if parts.order (is_resolved trigger) _ _ cancels (λ _. Steps-pure parts.order 0))
        λ cancelled. route_or_skip-Steps e.team_id
