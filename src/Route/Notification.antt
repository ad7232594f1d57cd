-- ===== src/Route/Notification.antt =====
-- `_build_notification` of backend/app/services/routing.py and backend/app/services/grafana.py.
use k8s_alert_manager.Prelude.{ℕ, String, Option, none, some, lookup, str_eq, if◌then◌else◌}
use Prim.Native.String.{◌++◌ as ◌<>◌}
use k8s_alert_manager.Text.{str, rstrip_slash}
use k8s_alert_manager.Runtime.{Runtime}
use k8s_alert_manager.Models.Alert.{EventStatus, Labels, AlertEvent}
use k8s_alert_manager.Models.Outbox.{AlertNotification}
use k8s_alert_manager.Models.Cluster.{Cluster}
use k8s_alert_manager.Models.Db.{Db, get_cluster, get_team}

-- A value that Python takes for true: neither None nor the empty text.
abbrev pub truthy : Option String → Option String
truthy none = none
truthy (some s) = if str_eq s "" then none else some s

abbrev pub runbook_annotation : String
runbook_annotation = "runbook_url"

abbrev pub grafana_annotation : String
grafana_annotation = "kam_grafana_url"

cluster_grafana_url : Option Cluster → Option String
cluster_grafana_url none = none
cluster_grafana_url (some c) = truthy c.grafana_url

module _ (rt : Runtime) where
  unfoldable pub resolve_grafana_url : Labels → Option Cluster → String → Option String
  unfolding cluster_grafana_url rstrip_slash
  resolve_grafana_url annotations cluster alertname =
      elim (truthy (lookup grafana_annotation annotations)) [
        | some url ↦ some url
        | none ↦ elim (cluster_grafana_url cluster) [
          | none ↦ none
          | some url ↦
              some (rstrip_slash url <> "/alerting/list?queryString=" <> rt.quote alertname)
        ]
      ]

  unfoldable pub build_notification :
      AlertEvent → EventStatus → String → Option Cluster → AlertNotification
  unfolding resolve_grafana_url str
  build_notification e trigger team_slug cluster = record {
    event_id = e.id;
    trigger = trigger;
    alertname = e.alertname;
    severity = e.severity;
    namespace = e.namespace;
    cluster = e.cluster_name;
    labels = e.labels;
    annotations = e.annotations;
    starts_at = e.starts_at;
    ends_at = e.ends_at;
    team_slug = team_slug;
    app_url = rt.app_base_url <> "/alerts/history/" <> str e.id;
    runbook_url = lookup runbook_annotation e.annotations;
    grafana_url = resolve_grafana_url e.annotations cluster e.alertname;
  }

  abbrev slug_of : Db → Option ℕ → String
  slug_of db none = ""
  slug_of db (some id) = elim (get_team db id) [ none ↦ "" | some t ↦ t.slug ]

  abbrev trigger_or_status : AlertEvent → Option EventStatus → EventStatus
  trigger_or_status e none = e.status
  trigger_or_status e (some trigger) = trigger

  unfoldable pub build_notification_for_event :
      Db → AlertEvent → Option EventStatus → AlertNotification
  unfolding build_notification
  build_notification_for_event db e trigger =
      build_notification e (trigger_or_status e trigger) (slug_of db e.team_id)
        (get_cluster db e.cluster_id)
