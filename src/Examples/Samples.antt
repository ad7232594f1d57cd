-- ===== src/Examples/Samples.antt =====
-- Concrete rows of the tables of backend/app/models, for the runs.
use k8s_alert_manager.Prelude.{ℕ, true, false, not, none, some, [], ◌∷◌, str_eq, if◌then◌else◌}
use k8s_alert_manager.Runtime.{Runtime}
use k8s_alert_manager.Models.Alert.{firing, AlertEvent}
use k8s_alert_manager.Models.Routing.{
  notify, suppress, RoutingMatcher, RoutingRule, include, exclude, label,
}
use k8s_alert_manager.Models.Channel.{Channel, off, always}
use k8s_alert_manager.Models.Share.{AlertShare, MatcherDict, view_notify}
use k8s_alert_manager.Models.Outbox.{NotificationOutbox, Payload, transition, pending, digested}
use k8s_alert_manager.Models.Scheduled.{ScheduledAction, Kind}
use k8s_alert_manager.Models.Scheduled
use k8s_alert_manager.Models.Cluster.{Cluster, HeartbeatState}
use k8s_alert_manager.Models.User.{User, TeamMembership, owner, manual}
use k8s_alert_manager.Models.Db.{Db}
use k8s_alert_manager.Templating.{rendered}
use k8s_alert_manager.Worker.Attempt.{Channels, usable}
use k8s_alert_manager.Worker.Deliver.{Turn}
use k8s_alert_manager.Ingest.{AlertmanagerAlert}

-- Patterns match literally, and "[" does not compile.
abbrev pub runtime : Runtime
runtime = record {
  compiles = λ p. not (str_eq p "[");
  search = str_eq;
  fullmatch = str_eq;
  int = λ s. if str_eq s "3" then some 3 else none;
  sub = λ p r s. s;
  split = λ p s. s ∷ [];
  lower = λ s. s;
  strip = λ s. s;
  quote = λ s. s;
  app_base_url = "https://kam";
  ldap_admin_groups = "cn=admins";
  fromisoformat = λ s. if str_eq s "at 100" then some 100 else none;
  isoformat = λ t. "at 100";
}

abbrev pub event : AlertEvent
event = record {
  id = 1;
  cluster_id = 1;
  cluster_name = "prod";
  fingerprint = "f1";
  status = firing;
  alertname = "PodDown";
  severity = some "critical";
  namespace = some "apps";
  labels = ("pod", "api") ∷ [];
  annotations = [];
  team_id = some 1;
  starts_at = 90;
  ends_at = none;
  generator_url = none;
  first_received_at = 95;
  last_received_at = 95;
  receive_count = 1;
  suppressed_by_rule_id = none;
  acknowledged_at = none;
  acknowledged_by = none;
  assignee_user_id = none;
  is_test = false;
}

abbrev pub matcher : RoutingMatcher
matcher = record { kind = include; target = label; key = some "pod"; pattern = "api"; position = 0 }

abbrev pub excluding : RoutingMatcher
excluding = record {
  kind = exclude;
  target = label;
  key = some "pod";
  pattern = "api";
  position = 3;
}

abbrev pub rule : RoutingRule
rule = record {
  id = 1;
  team_id = 1;
  name = "pods";
  description = none;
  action = notify;
  enabled = true;
  notify_on_firing = true;
  notify_on_resolved = true;
  include_shared = false;
  escalation_enabled = true;
  escalation_after_minutes = some 5;
  renotify_interval_minutes = some 10;
  severities = some ("critical" ∷ []);
  namespaces_include = some ("apps" ∷ "[" ∷ []);
  namespaces_exclude = none;
  clusters = some (1 ∷ []);
  template_id = none;
  matchers = matcher ∷ [];
  channels = 1 ∷ [];
  escalation_channels = 2 ∷ [];
}

abbrev pub shared_rule : RoutingRule
shared_rule = record rule { id = 2; team_id = 2; include_shared = true; channels = 2 ∷ [] }

abbrev pub suppress_rule : RoutingRule
suppress_rule = record rule { id = 3; action = suppress; notify_on_firing = false }

abbrev pub channel : Channel
channel = record {
  id = 1;
  team_id = 1;
  type = "slack";
  config_encrypted = "c";
  enabled = true;
  template_id = none;
  allow_cross_team_escalation = false;
  rate_limit_per_hour = none;
  digest_mode = off;
  digest_window_minutes = 15;
  deleted_at = none;
}

abbrev pub open_channel : Channel
open_channel = record channel { id = 2; team_id = 2; allow_cross_team_escalation = true }

abbrev pub storm_channel : Channel
storm_channel = record channel { id = 3; digest_mode = always }

abbrev pub dict : MatcherDict
dict = record { kind = some include; target = some label; key = some "pod"; pattern = some "api" }

abbrev pub user : User
user = record {
  id = 1;
  username = "kim";
  display_name = "Kim";
  email = none;
  is_admin = false;
  is_active = true;
  last_login_at = none;
}

abbrev pub colleague : User
colleague = record user { id = 2; username = "lee" }

abbrev pub admin : User
admin = record user { id = 3; username = "root"; is_admin = true }

abbrev pub membership : TeamMembership
membership = record { id = 1; team_id = 1; user_id = 1; role = owner; origin = manual }

abbrev pub share : AlertShare
share = record {
  id = 1;
  owner_team_id = 1;
  target_team_id = 2;
  mode = view_notify;
  matchers = some (dict ∷ []);
  created_by = some 1;
  created_at = 10;
}

abbrev pub payload : Payload
payload = Payload.report (record { title = "t"; body = "b"; body_html = none }) 1

abbrev pub row : NotificationOutbox
row = record {
  id = 1;
  alert_event_id = some 1;
  routing_rule_id = some 1;
  channel_id = 3;
  team_id = 1;
  trigger = transition firing;
  payload = payload;
  status = pending;
  attempts = 0;
  is_digest = false;
  digested_into_id = none;
  next_attempt_at = 100;
  locked_by = none;
  locked_at = none;
  last_error = none;
  created_at = 100;
  delivered_at = none;
}

abbrev pub parked_row : NotificationOutbox
parked_row = record row { id = 2; alert_event_id = some 6; status = digested }

abbrev pub late_row : NotificationOutbox
late_row = record row { id = 3; alert_event_id = some 7; status = digested; created_at = 80 }

abbrev pub cluster : Cluster
cluster = record {
  id = 1;
  name = "prod";
  display_name = "Production";
  enabled = true;
  grafana_url = none;
  heartbeat_enabled = true;
  heartbeat_alertname = "Watchdog";
  heartbeat_timeout_seconds = 60;
  heartbeat_team_id = none;
  last_heartbeat_at = some 5;
  heartbeat_state = HeartbeatState.ok;
}

abbrev pub action : ScheduledAction
action = record {
  id = 1;
  kind = Kind.escalation;
  alert_event_id = some 1;
  routing_rule_id = some 1;
  channel_id = none;
  due_at = 100;
  status = Scheduled.pending;
  processed_at = none;
}

abbrev pub renotify : ScheduledAction
renotify = record action { id = 4; kind = Kind.renotify }

abbrev pub flush : ScheduledAction
flush = record action {
  id = 2;
  kind = Kind.digest_flush;
  alert_event_id = none;
  routing_rule_id = none;
  channel_id = some 3;
}

abbrev pub database : Db
database = record {
  events = event ∷ [];
  outbox = [];
  actions = action ∷ [];
  rules = rule ∷ shared_rule ∷ [];
  channels = channel ∷ open_channel ∷ storm_channel ∷ [];
  shares = share ∷ [];
  clusters = cluster ∷ [];
  teams =
      record { id = 1; slug = "core"; name = "Core"; description = none }
      ∷ record { id = 2; slug = "web"; name = "Web"; description = none }
      ∷ [];
  templates = [];
  users = user ∷ colleague ∷ admin ∷ [];
  memberships = membership ∷ [];
  ldap_mappings = [];
  comments = [];
  audit_logs = [];
  settings = [];
  next_event_id = 2;
  next_outbox_id = 10;
  next_action_id = 10;
  next_user_id = 10;
  next_membership_id = 10;
  next_mapping_id = 10;
  next_comment_id = 10;
  next_share_id = 10;
  next_team_id = 10;
  next_rule_id = 10;
  next_template_id = 10;
  next_audit_id = 1;
}

-- Two parked rows of the storm channel behind a queued one.
abbrev pub stormy : Db
stormy = record database { outbox = row ∷ parked_row ∷ late_row ∷ [] }

abbrev pub channels : Channels
channels = record {
  known = λ type. true;
  config = λ type text. usable;
  construct = λ type text. none;
  default_templates = λ type. none;
  deliver = λ type text message. none;
  engine = record {
    render_slots = λ strings n.
        rendered (record { title = strings.title; body = strings.body; body_html = none });
    app_default_templates = record { title = "t"; body = "b"; body_html = none };
  };
}

abbrev pub turn : ℕ → Turn
turn id = record { channels = channels; now = 200; jitter = 3 }

abbrev pub alert : AlertmanagerAlert
alert = record {
  status = firing;
  labels =
      ("alertname", "PodDown")
      ∷ ("kam_team", "core")
      ∷ ("severity", "critical")
      ∷ ("namespace", "apps")
      ∷ ("pod", "api")
      ∷ [];
  annotations = [];
  starts_at = some "at 100";
  ends_at = none;
  fingerprint = "f2";
  generator_url = none;
}

abbrev pub undated : AlertmanagerAlert
undated = record alert { starts_at = none }
