-- ===== src/Ingest.antt =====
-- backend/app/services/ingest.py: the alerts of one Alertmanager webhook.
pub mod Alerts
pub mod Counting
pub mod Identity
pub mod Parts
pub mod Steps
pub mod Episodes
use Prim.Native.String.{◌++◌ as ◌<>◌}
use k8s_alert_manager.Prelude.{
  ℕ, zero, suc, ◌+◌, String, Bool, true, false, ◌&&◌, Option, none, some, map_option, List, [], ◌∷◌,
  ◌++◌, any, filter, lookup, str_eq, ◌==◌, if◌then◌else◌,
}
use k8s_alert_manager.Text.{str}
use k8s_alert_manager.Runtime.{Runtime}
use k8s_alert_manager.Models.Alert.{EventStatus, is_firing, Labels, AlertEvent}
use k8s_alert_manager.Models.Cluster.{Cluster, HeartbeatState, is_missing, Team}
use k8s_alert_manager.Models.Db.{Db, get_cluster, set_event, set_cluster}
use k8s_alert_manager.Exec.{
  Exec, multiple_results, integrity, assertion, pure, raise, modify, ◌>>=◌, ◌>>◌,
}
use k8s_alert_manager.Route.Notification.{truthy}
use k8s_alert_manager.Route.Event.{route_event}

pub record AlertmanagerAlert : Type 0 where
  pub status : EventStatus
  pub labels : Labels
  pub annotations : Labels
  pub starts_at : Option String
  pub ends_at : Option String
  pub fingerprint : String
  pub generator_url : Option String

pub data TransitionKind : Type 0 where
  created resolved reopened : TransitionKind

-- The event object of a transition is named by its id.
pub record AlertTransition : Type 0 where
  pub kind : TransitionKind
  pub event : ℕ

pub record IngestResult : Type 0 where
  pub received : ℕ
  pub created : ℕ
  pub created_resolved : ℕ
  pub resolved : ℕ
  pub reopened : ℕ
  pub repeats : ℕ
  pub heartbeats_seen : ℕ
  pub skipped : ℕ
  pub transitions : List AlertTransition

abbrev pub am_zero_time : String
am_zero_time = "0001-01-01T00:00:00Z"

unfoldable pub heartbeat_lost_fingerprint : ℕ → String
unfolding str
heartbeat_lost_fingerprint cluster_id = "hb-" <> str cluster_id

-- `none` for ValueError.
abbrev pub parse_am_timestamp : Runtime → Option String → Option (Option ℕ)
parse_am_timestamp rt none = some none
parse_am_timestamp rt (some value) =
    if str_eq value am_zero_time then some none else map_option some (rt.fromisoformat value)

-- scalar_one_or_none
abbrev pub one_or_none : {A : Type 0} → List A → Exec (Option A)
one_or_none [] = pure none
one_or_none (x ∷ []) = pure (some x)
one_or_none (x ∷ y ∷ xs) = raise multiple_results

abbrev pub team_with_slug : Option String → Exec (Option ℕ)
team_with_slug none = pure none
team_with_slug (some slug) = λ db.
    (do
      team ← one_or_none (filter (λ t. str_eq t.slug slug) db.teams)
      pure (map_option (λ t. t.id) team))
      db

unfoldable pub resolve_team_id : Option String → Exec (Option ℕ)
resolve_team_id slug = team_with_slug (truthy slug)

unfoldable pub has_identity : ℕ → String → ℕ → AlertEvent → Bool
has_identity cluster_id fingerprint starts_at e =
    e.cluster_id == cluster_id && str_eq e.fingerprint fingerprint && e.starts_at == starts_at

unfoldable pub get_existing : ℕ → String → ℕ → Exec (Option AlertEvent)
unfolding has_identity
get_existing cluster_id fingerprint starts_at db =
    one_or_none (filter (has_identity cluster_id fingerprint starts_at) db.events) db

abbrev pub severity_of : Runtime → Labels → Option String
severity_of rt labels = map_option rt.lower (truthy (lookup "severity" labels))

abbrev pub or_empty : Option String → String
or_empty none = ""
or_empty (some s) = s

abbrev pub alertname_of : AlertmanagerAlert → String
alertname_of alert = or_empty (lookup "alertname" alert.labels)

abbrev pub transition : TransitionKind → ℕ → IngestResult → IngestResult
transition kind event res = record res {
  transitions = res.transitions ++ record { kind = kind; event = event } ∷ [];
}

abbrev pub add_event : AlertEvent → Db → Db
add_event e db = record db { events = db.events ++ e ∷ []; next_event_id = suc db.next_event_id }

module _ (rt : Runtime) (now : ℕ) where
  unfoldable pub on_event_transition : AlertEvent → EventStatus → Exec (Unit {0})
  unfolding route_event
  on_event_transition e kind = do outcome ← route_event rt now e kind; pure tt

  abbrev pub recovered : AlertEvent → AlertEvent
  recovered e = record e {
    status = EventStatus.resolved;
    ends_at = some now;
    last_received_at = now;
    receive_count = suc e.receive_count;
  }

  unfoldable pub resolve_each : List AlertEvent → Exec (List AlertTransition)
  unfolding on_event_transition
  resolve_each [] = pure []
  resolve_each (e ∷ es) = do
    modify (set_event e.id recovered)
    on_event_transition (recovered e) EventStatus.resolved
    rest ← resolve_each es
    pure (record { kind = TransitionKind.resolved; event = e.id } ∷ rest)

  unfoldable pub is_heartbeat_lost : ℕ → AlertEvent → Bool
  unfolding heartbeat_lost_fingerprint is_firing
  is_heartbeat_lost cluster_id e =
      e.cluster_id == cluster_id
      && str_eq e.fingerprint (heartbeat_lost_fingerprint cluster_id)
      && is_firing e.status

  unfoldable pub resolve_heartbeat_lost_event : ℕ → Exec (List AlertTransition)
  unfolding resolve_each is_heartbeat_lost
  resolve_heartbeat_lost_event cluster_id db =
      resolve_each (filter (is_heartbeat_lost cluster_id) db.events) db
