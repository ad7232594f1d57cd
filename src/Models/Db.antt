-- ===== src/Models/Db.antt =====
-- The database as the services see it: a list of rows for each table, in the order of insertion,
-- and the counters from which the growing tables draw their primary keys.
use k8s_alert_manager.Prelude.{ℕ, Option, List, find, ◌==◌, update_where}
use k8s_alert_manager.Models.Alert.{AlertEvent}
use k8s_alert_manager.Models.Routing.{RoutingRule}
use k8s_alert_manager.Models.Channel.{Channel}
use k8s_alert_manager.Models.Outbox.{NotificationOutbox}
use k8s_alert_manager.Models.Scheduled.{ScheduledAction}
use k8s_alert_manager.Models.Share.{AlertShare}
use k8s_alert_manager.Models.Template.{MessageTemplate}
use k8s_alert_manager.Models.Cluster.{Cluster, Team}
use k8s_alert_manager.Models.User.{User, TeamMembership, TeamLdapMapping}
use k8s_alert_manager.Models.Audit.{AuditLog, AlertComment, AppSetting}

pub record Db : Type 0 where
  pub events : List AlertEvent
  pub outbox : List NotificationOutbox
  pub actions : List ScheduledAction
  pub rules : List RoutingRule
  pub channels : List Channel
  pub shares : List AlertShare
  pub clusters : List Cluster
  pub teams : List Team
  pub templates : List MessageTemplate
  pub users : List User
  pub memberships : List TeamMembership
  pub ldap_mappings : List TeamLdapMapping
  pub comments : List AlertComment
  pub audit_logs : List AuditLog
  pub settings : List AppSetting
  pub next_event_id : ℕ
  pub next_outbox_id : ℕ
  pub next_action_id : ℕ
  pub next_user_id : ℕ
  pub next_membership_id : ℕ
  pub next_mapping_id : ℕ
  pub next_comment_id : ℕ
  pub next_share_id : ℕ
  pub next_team_id : ℕ
  pub next_rule_id : ℕ
  pub next_template_id : ℕ
  pub next_audit_id : ℕ

-- session.get(Model, id)
abbrev pub get_event : Db → ℕ → Option AlertEvent
get_event db n = find (λ e. e.id == n) db.events

abbrev pub get_outbox : Db → ℕ → Option NotificationOutbox
get_outbox db n = find (λ r. r.id == n) db.outbox

abbrev pub get_action : Db → ℕ → Option ScheduledAction
get_action db n = find (λ a. a.id == n) db.actions

abbrev pub get_rule : Db → ℕ → Option RoutingRule
get_rule db n = find (λ r. r.id == n) db.rules

abbrev pub get_channel : Db → ℕ → Option Channel
get_channel db n = find (λ c. c.id == n) db.channels

abbrev pub get_cluster : Db → ℕ → Option Cluster
get_cluster db n = find (λ c. c.id == n) db.clusters

abbrev pub get_team : Db → ℕ → Option Team
get_team db n = find (λ t. t.id == n) db.teams

abbrev pub get_template : Db → ℕ → Option MessageTemplate
get_template db n = find (λ t. t.id == n) db.templates

abbrev pub get_user : Db → ℕ → Option User
get_user db n = find (λ u. u.id == n) db.users

abbrev pub get_share : Db → ℕ → Option AlertShare
get_share db n = find (λ s. s.id == n) db.shares

-- UPDATE of the one row with a primary key
abbrev pub set_outbox : ℕ → (NotificationOutbox → NotificationOutbox) → Db → Db
set_outbox n f db = record db { outbox = update_where (λ r. r.id == n) f db.outbox }

abbrev pub set_action : ℕ → (ScheduledAction → ScheduledAction) → Db → Db
set_action n f db = record db { actions = update_where (λ a. a.id == n) f db.actions }

abbrev pub set_event : ℕ → (AlertEvent → AlertEvent) → Db → Db
set_event n f db = record db { events = update_where (λ e. e.id == n) f db.events }

abbrev pub set_cluster : ℕ → (Cluster → Cluster) → Db → Db
set_cluster n f db = record db { clusters = update_where (λ c. c.id == n) f db.clusters }

abbrev pub set_user : ℕ → (User → User) → Db → Db
set_user n f db = record db { users = update_where (λ u. u.id == n) f db.users }
