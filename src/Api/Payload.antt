-- ===== src/Api/Payload.antt =====
-- What the requests on alerts of backend/app/api/alerts.py answer and publish.
use k8s_alert_manager.Prelude.{
  ℕ, String, Bool, true, false, Option, none, some, List, [], ◌∷◌, map, map_option, filter, elem,
  filter_map, find, ◌==◌, if◌then◌else◌, is_some,
}
use k8s_alert_manager.Runtime.{Runtime}
use k8s_alert_manager.Models.Alert.{EventStatus, Labels, AlertEvent}
use k8s_alert_manager.Models.Audit.{AlertComment}
use k8s_alert_manager.Models.User.{User}
use k8s_alert_manager.Models.Db.{Db, get_cluster, get_team}
use k8s_alert_manager.Exec.{Exec, pure, ◌>>=◌}
use k8s_alert_manager.Route.Notification.{resolve_grafana_url}
use k8s_alert_manager.Feed.{HubEvent}
use k8s_alert_manager.Ingest.{TransitionKind}
use k8s_alert_manager.Api.Access.{membership_of}

-- {"id": ..., "username": usernames.get(...)}
pub record UserRef : Type 0 where
  pub id : ℕ
  pub username : Option String

pub record EventSummary : Type 0 where
  pub id : ℕ
  pub cluster_id : ℕ
  pub cluster_name : String
  pub fingerprint : String
  pub status : EventStatus
  pub alertname : String
  pub severity : Option String
  pub namespace : Option String
  pub team_id : Option ℕ
  pub starts_at : ℕ
  pub ends_at : Option ℕ
  pub first_received_at : ℕ
  pub last_received_at : ℕ
  pub receive_count : ℕ
  pub is_test : Bool
  pub acknowledged_at : Option ℕ
  pub acknowledged_by : Option UserRef
  pub assignee : Option UserRef
  pub shared_from : Option String

pub record EventDetail : Type 0 where
  pub summary : EventSummary
  pub labels : Labels
  pub annotations : Labels
  pub generator_url : Option String
  pub grafana_url : Option String

-- ids without None, and the usernames of those that are there
abbrev pub present : List (Option ℕ) → List ℕ
present ids = filter_map (λ id. id) ids

unfoldable pub resolve_usernames : Db → List (Option ℕ) → List (ℕ × String)
resolve_usernames db user_ids =
    map (λ u. (u.id, u.username)) (filter (λ u. elem u.id (present user_ids)) db.users)

abbrev pub username_of : ℕ → List (ℕ × String) → Option String
username_of id usernames = map_option (λ p. p.1) (find (λ p. p.0 == id) usernames)

abbrev pub user_ref : Option ℕ → List (ℕ × String) → Option UserRef
user_ref none usernames = none
user_ref (some id) usernames = some (record { id = id; username = username_of id usernames })

unfoldable pub serialize_event_summary :
    AlertEvent → List (ℕ × String) → Option String → EventSummary
serialize_event_summary event usernames shared_from = record {
  id = event.id;
  cluster_id = event.cluster_id;
  cluster_name = event.cluster_name;
  fingerprint = event.fingerprint;
  status = event.status;
  alertname = event.alertname;
  severity = event.severity;
  namespace = event.namespace;
  team_id = event.team_id;
  starts_at = event.starts_at;
  ends_at = event.ends_at;
  first_received_at = event.first_received_at;
  last_received_at = event.last_received_at;
  receive_count = event.receive_count;
  is_test = event.is_test;
  acknowledged_at = event.acknowledged_at;
  acknowledged_by = user_ref event.acknowledged_by usernames;
  assignee = user_ref event.assignee_user_id usernames;
  shared_from = shared_from;
}

unfoldable pub serialize_event_detail :
    AlertEvent → List (ℕ × String) → Option String → Option String → EventDetail
unfolding serialize_event_summary
serialize_event_detail event usernames grafana_url shared_from = record {
  summary = serialize_event_summary event usernames shared_from;
  labels = event.labels;
  annotations = event.annotations;
  generator_url = event.generator_url;
  grafana_url = grafana_url;
}

abbrev pub slug_unless_member : ℕ → Bool → Exec (Option String)
slug_unless_member team_id true = pure none
slug_unless_member team_id false = λ db. pure (map_option (λ t. t.slug) (get_team db team_id)) db

abbrev pub shared_from_team : User → Option ℕ → Exec (Option String)
shared_from_team viewer none = pure none
shared_from_team viewer (some team_id) = do
  membership ← membership_of team_id viewer.id
  slug_unless_member team_id (is_some membership)

-- The slug of the event's team, for a viewer who is not in it.
unfoldable pub resolve_shared_from : AlertEvent → User → Exec (Option String)
resolve_shared_from event viewer =
    if viewer.is_admin then pure none else shared_from_team viewer event.team_id

abbrev pub shared_from_viewer : AlertEvent → Option User → Exec (Option String)
shared_from_viewer event none = pure none
shared_from_viewer event (some viewer) = resolve_shared_from event viewer

module _ (rt : Runtime) where
  unfoldable pub serialize_one_detail : AlertEvent → Option User → Exec EventDetail
  unfolding resolve_usernames serialize_event_detail resolve_shared_from resolve_grafana_url
  serialize_one_detail event viewer = λ db.
      let usernames = resolve_usernames db (event.acknowledged_by ∷ event.assignee_user_id ∷ []) in
      let grafana_url =
        resolve_grafana_url rt event.annotations (get_cluster db event.cluster_id)
          event.alertname in
      (do
        shared_from ← shared_from_viewer event viewer
        pure (serialize_event_detail event usernames grafana_url shared_from))
        db

  -- build_event with the fields of an event
  unfoldable pub build_event : ℕ → String → AlertEvent → HubEvent
  build_event now event_type event = record {
    type_ = event_type;
    event_id = event.id;
    team_id = event.team_id;
    cluster = event.cluster_name;
    namespace = event.namespace;
    alertname = event.alertname;
    severity = event.severity;
    is_test = event.is_test;
    ts = rt.isoformat now;
  }

-- TRANSITION_EVENT_TYPE
abbrev pub transition_event_type : TransitionKind → String
transition_event_type TransitionKind.created = "alert_created"
transition_event_type TransitionKind.resolved = "alert_resolved"
transition_event_type TransitionKind.reopened = "alert_reopened"

pub record Author : Type 0 where
  pub id : ℕ
  pub username : String
  pub display_name : String

abbrev pub author_of : User → Author
author_of u = record { id = u.id; username = u.username; display_name = u.display_name }

pub record CommentPayload : Type 0 where
  pub id : ℕ
  pub user : Option Author
  pub body : String
  pub created_at : ℕ

abbrev pub serialize_comment : AlertComment → Option User → CommentPayload
serialize_comment comment author = record {
  id = comment.id;
  user = map_option author_of author;
  body = comment.body;
  created_at = comment.created_at;
}
