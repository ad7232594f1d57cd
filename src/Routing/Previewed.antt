-- ===== src/Routing/Previewed.antt =====
-- What the preview of a draft rule says: `preview_rule` of backend/app/services/routing.py.
use k8s_alert_manager.Prelude.{ℕ, ◌≡◌, ◌↔◌, true, some, List, Any}
use k8s_alert_manager.Runtime.{Runtime}
use k8s_alert_manager.Models.Alert.{firing, AlertEvent}
use k8s_alert_manager.Models.Routing.{RoutingRule, RoutingMatcher}
use k8s_alert_manager.Models.Db.{Db}
use k8s_alert_manager.Routing.Evaluate.{is_matched}
use k8s_alert_manager.Routing.Admits.{Admits}
use k8s_alert_manager.Routing.Preview.{PreviewResult}

-- The preview is of an event of the team in the database, with the event's columns, and says `matched` exactly when the draft admits the event
-- as firing.
pub record IsPreview (rt : Runtime) (db : Db) (team_id : ℕ) (rule : RoutingRule)
    (ms : List RoutingMatcher) (p : PreviewResult) : Type 0 where
  pub event : AlertEvent
  pub stored : Any (λ e. e ≡ event) db.events
  pub team : event.team_id ≡ some team_id
  pub id : p.event_id ≡ event.id
  pub columns :
      (p.alertname ≡ event.alertname)
      × (p.severity ≡ event.severity)
      × (p.namespace ≡ event.namespace)
      × (p.cluster ≡ event.cluster_name)
      × (p.status ≡ event.status)
  pub verdict : (is_matched p.verdict ≡ true) ↔ Admits rt event rule ms firing
