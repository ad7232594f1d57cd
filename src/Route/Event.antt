-- ===== src/Route/Event.antt =====
-- `_route_shared_view` and `route_event` of backend/app/services/routing.py.
use k8s_alert_manager.Prelude.{
  ℕ, ◌+◌, Bool, true, false, ◌&&◌, Option, none, some, List, [], ◌∷◌, any, filter, find, is_empty,
  ltb, update_where, ◌==◌, if◌then◌else◌,
}
use k8s_alert_manager.Runtime.{Runtime}
use k8s_alert_manager.Models.Alert.{EventStatus, is_resolved, AlertEvent}
use k8s_alert_manager.Models.Routing.{RoutingRule}
use k8s_alert_manager.Models.Outbox.{Payload, notification}
use k8s_alert_manager.Models.Share.{is_view_notify, AlertShare}
use k8s_alert_manager.Models.Cluster.{Team}
use k8s_alert_manager.Models.Db.{Db, get_cluster, get_team}
use k8s_alert_manager.Exec.{Exec, assertion, pure, raise, modify, ◌>>=◌, ◌>>◌}
use k8s_alert_manager.Routing.Evaluate.{as_matchable, matches_rule}
use k8s_alert_manager.Sharing.{share_matches}
use k8s_alert_manager.Route.Notification.{build_notification}
use k8s_alert_manager.Route.Owner.{
  suppress_rules, notify_rules, Matches, matched_notify_channels, stage_outbox,
}
use k8s_alert_manager.Route.Timers.{cancel_pending, schedule_escalations}

pub data Reason : Type 0 where
  unassigned_team suppressed no_match : Reason

pub record RoutingOutcome : Type 0 where
  pub routed : Bool
  pub reason : Option Reason
  pub suppressed_by_rule_id : Option ℕ
  pub channels_notified : ℕ
  pub shared_channels_notified : ℕ

abbrev pub unrouted : Reason → Option ℕ → ℕ → RoutingOutcome
unrouted reason rule_id shared = record {
  routed = false;
  reason = some reason;
  suppressed_by_rule_id = rule_id;
  channels_notified = 0;
  shared_channels_notified = shared;
}

abbrev pub routed_to : ℕ → ℕ → RoutingOutcome
routed_to created shared = record {
  routed = ltb 0 created;
  reason = none;
  suppressed_by_rule_id = none;
  channels_notified = created;
  shared_channels_notified = shared;
}

-- event.suppressed_by_rule_id = rule.id
abbrev pub set_suppressed : ℕ → ℕ → Db → Db
set_suppressed event_id rule_id db = record db {
  events =
      update_where (λ e. e.id == event_id) (λ e. record e { suppressed_by_rule_id = some rule_id })
        db.events;
}

module _ (rt : Runtime) (e : AlertEvent) (trigger : EventStatus) where
  -- The first suppress rule of the owning team that matches.
  unfoldable pub suppressing_rule : Db → ℕ → Option RoutingRule
  suppressing_rule db team_id = find (matches_rule rt e trigger) (suppress_rules db team_id false)

  unfoldable pub owner_channels : Db → ℕ → Matches
  owner_channels db team_id = elim (suppressing_rule db team_id) [
    | some rule ↦ []
    | none ↦ matched_notify_channels rt db e trigger (notify_rules db team_id false)
  ]

-- The shares of the owner in view_notify mode whose scope holds the event.
unfoldable pub matching_shares : Runtime → AlertEvent → Db → ℕ → List AlertShare
unfolding is_view_notify
matching_shares rt e db team_id =
    filter (λ s. share_matches rt s (as_matchable e))
      (filter (λ s. s.owner_team_id == team_id && is_view_notify s.mode) db.shares)

abbrev pub outcome : Option RoutingRule → Matches → ℕ → ℕ → RoutingOutcome
outcome (some rule) matched created shared = unrouted suppressed (some rule.id) shared
outcome none [] created shared = unrouted no_match none shared
outcome none (m ∷ ms) created shared = routed_to created shared

module _ (rt : Runtime) (now : ℕ) (e : AlertEvent) (trigger : EventStatus) where
  -- With the target's suppression and its matched channels computed.
  abbrev pub notify_target : Bool → Matches → ℕ → Payload → Exec ℕ
  notify_target blocked matched team_id payload =
      if blocked
      then pure 0
      else if is_empty matched
      then pure 0
      else stage_outbox now e.id trigger team_id payload matched

  -- One view_notify share: the target team's own include_shared rules, its suppress rules first.
  unfoldable pub route_shared_view : AlertShare → Payload → Exec ℕ
  route_shared_view share payload db =
      notify_target (any (matches_rule rt e trigger) (suppress_rules db share.target_team_id true))
        (matched_notify_channels rt db e trigger (notify_rules db share.target_team_id true))
        share.target_team_id payload db

  unfoldable pub route_shares : Payload → List AlertShare → Exec ℕ
  route_shares payload [] = pure 0
  route_shares payload (s ∷ shares) = do
    here ← route_shared_view s payload
    rest ← route_shares payload shares
    pure (here + rest)

  -- Records the suppression, or starts the escalation timers.
  unfoldable pub mark_or_escalate : Option RoutingRule → List RoutingRule → Exec (Unit {0})
  mark_or_escalate (some rule) rules = modify (set_suppressed e.id rule.id)
  mark_or_escalate none rules = schedule_escalations rt now e trigger rules

  abbrev pub payload_for : Db → Team → Payload
  payload_for db team =
      notification (build_notification rt e trigger team.slug (get_cluster db e.cluster_id))

  unfoldable pub stage_both : ℕ → Matches → List AlertShare → Payload → Exec (ℕ × ℕ)
  stage_both team_id matched shares payload = do
    created ← stage_outbox now e.id trigger team_id payload matched
    shared ← route_shares payload shares
    pure (created, shared)

  -- The part behind `session.get(Team, event.team_id)`, which the code asserts to find a row.
  unfoldable pub stage_all : Option Team → ℕ → Matches → List AlertShare → Exec (ℕ × ℕ)
  unfolding stage_both
  stage_all none team_id matched shares = raise assertion
  stage_all (some team) team_id matched shares =
      λ db. stage_both team_id matched shares (payload_for db team) db

  -- With the owner's suppression, its matched channels and its shares computed.
  unfoldable pub route_with :
      Option RoutingRule
      → List RoutingRule
      → Matches
      → List AlertShare
      → Option Team
      → ℕ
      → Exec RoutingOutcome
  unfolding mark_or_escalate stage_all
  route_with rule rules matched shares team team_id = do
    mark_or_escalate rule rules
    if is_empty matched && is_empty shares then pure (outcome rule [] 0 0) else do
      staged ← stage_all team team_id matched shares
      pure (outcome rule matched staged.0 staged.1)

  unfoldable pub route_team : ℕ → Exec RoutingOutcome
  unfolding route_with
  route_team team_id db =
      route_with (suppressing_rule rt e trigger db team_id) (notify_rules db team_id false)
        (owner_channels rt e trigger db team_id) (matching_shares rt e db team_id)
        (get_team db team_id) team_id db

  abbrev pub route_or_skip : Option ℕ → Exec RoutingOutcome
  route_or_skip none = pure (unrouted unassigned_team none 0)
  route_or_skip (some team_id) = route_team team_id

  abbrev pub cancel_if_resolved : Exec ℕ
  cancel_if_resolved = if is_resolved trigger then cancel_pending now e.id else pure 0

  unfoldable pub route_event : Exec RoutingOutcome
  unfolding is_resolved route_team
  route_event = do cancelled ← cancel_if_resolved; route_or_skip e.team_id
