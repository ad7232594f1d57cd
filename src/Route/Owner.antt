-- ===== src/Route/Owner.antt =====
-- `_load_team_rules`, `_matched_notify_channels` and `_stage_outbox` of
-- backend/app/services/routing.py.
use k8s_alert_manager.Prelude.{
  ℕ, suc, Bool, not, ◌&&◌, ◌||◌, some, List, [], ◌∷◌, ◌++◌, any, filter, filter_map, ◌==◌, is_some,
  if◌then◌else◌,
}
use k8s_alert_manager.Runtime.{Runtime}
use k8s_alert_manager.Models.Alert.{EventStatus, AlertEvent}
use k8s_alert_manager.Models.Routing.{is_suppress, is_notify, RoutingRule}
use k8s_alert_manager.Models.Channel.{Channel}
use k8s_alert_manager.Models.Outbox.{transition, Payload}
use k8s_alert_manager.Models.Db.{Db, get_channel}
use k8s_alert_manager.Exec.{Exec, pure, ◌>>=◌}
use k8s_alert_manager.Routing.Evaluate.{matches_rule}
use k8s_alert_manager.Staging.{stage_outbox_row}

abbrev pub team_rules : Db → ℕ → Bool → List RoutingRule
team_rules db team_id require_include_shared =
    filter
      (λ r. r.team_id == team_id && r.enabled && (not require_include_shared || r.include_shared))
      db.rules

unfoldable pub suppress_rules : Db → ℕ → Bool → List RoutingRule
unfolding is_suppress
suppress_rules db team_id shared = filter (λ r. is_suppress r.action) (team_rules db team_id shared)

unfoldable pub notify_rules : Db → ℕ → Bool → List RoutingRule
unfolding is_notify
notify_rules db team_id shared = filter (λ r. is_notify r.action) (team_rules db team_id shared)

-- rule.channels: the channels that the association table names
abbrev pub rule_channels : Db → RoutingRule → List Channel
rule_channels db rule = filter_map (get_channel db) rule.channels

-- The dict of matched channels, in the order of insertion.
abbrev pub Matches : Type 0
Matches = List (Channel × RoutingRule)

abbrev pub has_channel : ℕ → Matches → Bool
has_channel id matches = any (λ m. m.0.id == id) matches

-- One round of the inner loop: a deleted channel is skipped, and `setdefault` keeps the first rule.
abbrev pub add_channel : RoutingRule → Matches → Channel → Matches
add_channel rule matches channel =
    if is_some channel.deleted_at || has_channel channel.id matches
    then matches
    else matches ++ (channel, rule) ∷ []

unfoldable pub add_channels : RoutingRule → Matches → List Channel → Matches
add_channels rule matches [] = matches
add_channels rule matches (c ∷ cs) = add_channels rule (add_channel rule matches c) cs

module _ (rt : Runtime) (db : Db) (e : AlertEvent) (trigger : EventStatus) where
  unfoldable pub matched_channels_from : Matches → List RoutingRule → Matches
  unfolding add_channels
  matched_channels_from matches [] = matches
  matched_channels_from matches (r ∷ rs) =
      matched_channels_from
        (if matches_rule rt e trigger r
          then add_channels r matches (rule_channels db r)
          else matches)
        rs

  unfoldable pub matched_notify_channels : List RoutingRule → Matches
  unfolding matched_channels_from
  matched_notify_channels rules = matched_channels_from [] rules

module _ (now : ℕ) (event_id : ℕ) (trigger : EventStatus) (team_id : ℕ) (payload : Payload) where
  -- The number of rows that were inserted.
  unfoldable pub stage_outbox : Matches → Exec ℕ
  stage_outbox [] = pure 0
  stage_outbox ((channel, rule) ∷ rest) = do
    inserted ←
        stage_outbox_row now event_id (some rule.id) channel (some team_id) (transition trigger)
          payload
    created ← stage_outbox rest
    pure (if inserted then suc created else created)
