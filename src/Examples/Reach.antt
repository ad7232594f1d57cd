-- ===== src/Examples/Reach.antt =====
-- A firing event that reaches its channel: `route_event` of backend/app/services/routing.py.
use k8s_alert_manager.Prelude.{◌≡◌, refl, true, false, none, [], ◌∷◌, any, inl, arith}
use k8s_alert_manager.Models.Alert.{firing}
use k8s_alert_manager.Models.Routing.{RoutingRule, is_suppress, is_notify}
use k8s_alert_manager.Models.Db.{Db}
use k8s_alert_manager.Route.Event.{
  route_event, owner_channels, routed_to, suppressing_rule, route_shares, matching_shares,
}
use k8s_alert_manager.Route.Owner.{
  suppress_rules, notify_rules, matched_notify_channels, stage_outbox,
}
use k8s_alert_manager.Route.Timers.{schedule_escalations}
use k8s_alert_manager.Routing.Evaluate.{is_matched, evaluate, evaluate_compiled, evaluate_matchers}
use k8s_alert_manager.Routing.Compile.{compile_rule}
use k8s_alert_manager.Staging.{has_key, stage_outbox_row}
use k8s_alert_manager.Route.Notified.{route_event-HasRow}
use k8s_alert_manager.Routing.Admits.{Admits}
use k8s_alert_manager.Routing.Matched.{evaluate-matched_iff}
use k8s_alert_manager.Models.Outbox.{transition}
use k8s_alert_manager.Examples.Samples.{runtime, event, rule, channel, database}

abbrev plain_rule : RoutingRule
plain_rule = record rule {
  escalation_enabled = false;
  severities = none;
  namespaces_include = none;
  clusters = none;
  matchers = [];
}

abbrev small : Db
small = record database { rules = plain_rule ∷ []; shares = []; actions = [] }

plain_rule-Admits : Admits runtime event plain_rule [] firing
plain_rule-Admits =
    (evaluate-matched_iff runtime event plain_rule [] firing).0
      (unfold is_matched evaluate evaluate_compiled compile_rule evaluate_matchers in refl)

route_event-HasRow_example :
    any (has_key 1 1 (transition firing)) (route_event runtime 200 event firing small).1.outbox
    ≡ true
route_event-HasRow_example =
    route_event-HasRow runtime 200 event firing small 1 plain_rule channel (routed_to 1 0) refl
      ((λ h. unfold is_suppress in ground (arith, h.1)), tt) (inl refl) refl
      (unfold is_notify in refl) plain_rule-Admits (inl refl) refl
      (unfold route_event suppressing_rule suppress_rules schedule_escalations notify_rules
          owner_channels matched_notify_channels is_matched evaluate evaluate_compiled compile_rule
          evaluate_matchers stage_outbox stage_outbox_row route_shares matching_shares in
        refl)
