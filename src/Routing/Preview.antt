-- ===== src/Routing/Preview.antt =====
-- `preview_rule` of backend/app/services/routing.py.
use k8s_alert_manager.Prelude.{
  ℕ, String, Bool, Option, some, List, [], ◌∷◌, map, filter, take, ltb, leb, ◌==◌, if◌then◌else◌,
}
use k8s_alert_manager.Runtime.{Runtime}
use k8s_alert_manager.Models.Alert.{EventStatus, firing, AlertEvent}
use k8s_alert_manager.Models.Routing.{RoutingRule, RoutingMatcher}
use k8s_alert_manager.Models.Db.{Db}
use k8s_alert_manager.Staging.{is_value}
use k8s_alert_manager.Routing.Compile.{CompiledRule, compile_rule}
use k8s_alert_manager.Routing.Evaluate.{VerdictKind, evaluate_compiled}

pub record PreviewResult : Type 0 where
  pub event_id : ℕ
  pub alertname : String
  pub severity : Option String
  pub namespace : Option String
  pub cluster : String
  pub status : EventStatus
  pub verdict : VerdictKind
  pub blocking_matcher_position : Option ℕ

-- ORDER BY last_received_at DESC, id DESC
abbrev pub is_more_recent : AlertEvent → AlertEvent → Bool
is_more_recent a b =
    if a.last_received_at == b.last_received_at
    then leb b.id a.id
    else ltb b.last_received_at a.last_received_at

unfoldable pub insert_recent : AlertEvent → List AlertEvent → List AlertEvent
insert_recent e [] = e ∷ []
insert_recent e (x ∷ xs) =
    let later = insert_recent e xs in if is_more_recent e x then e ∷ x ∷ xs else x ∷ later

unfoldable pub order_recent : List AlertEvent → List AlertEvent
unfolding insert_recent
order_recent [] = []
order_recent (e ∷ es) = insert_recent e (order_recent es)

-- The most recent events of a team.
unfoldable pub recent_events : Db → ℕ → ℕ → List AlertEvent
unfolding order_recent
recent_events db team_id limit =
    take limit (order_recent (filter (λ e. is_value team_id e.team_id) db.events))

module _ (rt : Runtime) where
  abbrev pub preview_event : CompiledRule → AlertEvent → PreviewResult
  preview_event compiled e =
      let verdict = evaluate_compiled rt e compiled (some firing) in
      record {
        event_id = e.id;
        alertname = e.alertname;
        severity = e.severity;
        namespace = e.namespace;
        cluster = e.cluster_name;
        status = e.status;
        verdict = verdict.kind;
        blocking_matcher_position = verdict.blocking_matcher_position;
      }

  unfoldable pub preview_rule : Db → ℕ → RoutingRule → List RoutingMatcher → ℕ → List PreviewResult
  unfolding recent_events compile_rule evaluate_compiled
  preview_rule db team_id rule matchers limit =
      map (preview_event (compile_rule rt rule matchers)) (recent_events db team_id limit)
