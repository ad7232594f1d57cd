-- ===== src/Examples/Requests.antt =====
-- Requests of backend/app/api, logins and the purge at concrete inputs.
use k8s_alert_manager.Prelude.{
  ℕ, All, ◌≤◌, ◌≡◌, refl, Bool, if◌then◌else◌, ◌↔◌, true, false, Option, none, some, List, [], ◌∷◌,
  filter, map, str_eq, arith,
}
use k8s_alert_manager.Models.Alert.{AlertEvent, resolved}
use k8s_alert_manager.Models.Cluster.{Team}
use k8s_alert_manager.Models.User.{TeamLdapMapping, member}
use k8s_alert_manager.Models.Db.{Db, get_event}
use k8s_alert_manager.Exec.{ok}
use k8s_alert_manager.Examples.Samples.{runtime, event, user, admin, database, share}
use k8s_alert_manager.Api.{Answer, quietly, log}
use k8s_alert_manager.Api.Access.{
  authorize_event_read_access, authorize_event_access, get_event_or_404, guarded,
  resolve_team_scope,
}
use k8s_alert_manager.Api.Reading.{
  CanRead, authorize_event_read_access_iff, authorize_event_access-reads,
}
use k8s_alert_manager.Api.Payload.{serialize_one_detail}
use k8s_alert_manager.Api.Alerts.{acknowledged, ack_event, ack_alert, unack_event}
use k8s_alert_manager.Api.Access.{require_team_role, get_team_or_404}
use k8s_alert_manager.Api.Owned.{IsOwner}
use k8s_alert_manager.Api.Routes.Checks.{
  RouteWrite, validate_body, validate_clusters_exist, validate_template, resolve_channels,
  resolve_escalation_channels,
}
use k8s_alert_manager.Api.Routes.{create_route, save_new, checked_rule}
use k8s_alert_manager.Api.Routes.Valid.{IsValid}
use k8s_alert_manager.Api.Routes.Saved.{RouteSave, IsSaved, saves, saves-IsValid}
use k8s_alert_manager.Models.Share.{view}
use k8s_alert_manager.Sharing.{compile_share_scope, build_transient_matchers}
use k8s_alert_manager.Routing.Compile.{compile_matchers}
use k8s_alert_manager.Api.Teams.{
  ClusterRules, reply, refused, forbidden, delete_rules, after_delete, delete_all_rules,
  is_referred_to, drop_team, clean_and_drop, delete_team,
}
use k8s_alert_manager.Api.Access.{require_admin}
use k8s_alert_manager.Models.Db.{get_team}
use k8s_alert_manager.Api.Teams.Deleted.{IsCleaned, IsGone, delete_team-IsGone}
use k8s_alert_manager.Api.Shares.{has_pair}
use k8s_alert_manager.Api.Shares.Table.{SoundShares}
use k8s_alert_manager.Api.Shares.Sound.{ShareRequest, requested, requested-SoundShares}
use k8s_alert_manager.Models.Routing.{RoutingRule, include, label, notify}
use k8s_alert_manager.Api.Guarded.{MayChange, Change, succeeds-MayChange}
use k8s_alert_manager.Api.Acked.{IsAcknowledged, ack_alert-IsAcknowledged, ack-unack_roundtrip}
use k8s_alert_manager.Api.History.{Filters, select_events, build_history_conditions}
use k8s_alert_manager.Api.Export.{ndjson, export_row, export_alert_history, export_scoped}
use k8s_alert_manager.Api.Exported.{export_alert_history_complete}
use k8s_alert_manager.Accounts.{sync_memberships, matched_mappings}
use k8s_alert_manager.Accounts.Synced.{IsSynced, sync_memberships-IsSynced}
use k8s_alert_manager.Retention.{load_settings, purge}
use k8s_alert_manager.Retention.Purged.{HasPurged, purge-events}
use k8s_alert_manager.Route.Timers.{cancel_pending}

authorize_event_read_access_iff_example :
    ((r : Option (List ℕ)) × ((authorize_event_read_access runtime event user database).0 ≡ ok r))
    ↔ CanRead runtime event user database
authorize_event_read_access_iff_example =
    authorize_event_read_access_iff runtime event user database

authorize_event_access-reads_example :
    (authorize_event_read_access runtime event user database).0 ≡ ok none
authorize_event_access-reads_example =
    authorize_event_access-reads runtime event user database (unfold authorize_event_access in refl)

succeeds-MayChange_example :
    (e : AlertEvent) × (get_event database 1 ≡ some e) × MayChange e user database
succeeds-MayChange_example = succeeds-MayChange runtime 200 1 user database Change.unack (
    unfold k8s_alert_manager.Api.Alerts.unack_alert guarded get_event_or_404 authorize_event_access
      unack_event serialize_one_detail in
    refl)

ack_alert-IsAcknowledged_example :
    (e : AlertEvent) × (get_event database 1 ≡ some e)
    × IsAcknowledged e (ack_alert runtime 200 1 user database).1
ack_alert-IsAcknowledged_example = ack_alert-IsAcknowledged runtime 200 user database 1 (
    unfold ack_alert guarded get_event_or_404 authorize_event_access ack_event log cancel_pending
      serialize_one_detail in
    refl)

ack-unack_roundtrip_example :
    (unack_event runtime 300
      (acknowledged runtime 200 1 event)
      admin
      (ack_event runtime 200 event user database).1).1.events
    ≡ database.events
ack-unack_roundtrip_example =
    ack-unack_roundtrip runtime 200 user database 300 admin event refl ((λ same. (refl, refl)), tt)

abbrev all_events : Filters
all_events = record {
  cluster_id = [];
  status = none;
  severity = none;
  namespace = none;
  search = none;
  from_ts = none;
  to_ts = none;
  include_test = false;
}

-- Two events, the older one first in the table.
abbrev two_events : Db
two_events = record database {
  events = event ∷ record event { id = 2; last_received_at = 99 } ∷ [];
}

export_alert_history_complete_example :
    (team : Option Team) × ((resolve_team_scope (some 1) user two_events).0 ≡ ok team)
    × ((export_alert_history runtime 200 str_eq (some 1) all_events ndjson user two_events).0
        ≡ ok (
            quietly (
              map (export_row runtime) (
                select_events runtime str_eq
                  (build_history_conditions runtime str_eq team all_events [])
                  two_events))))
export_alert_history_complete_example =
    export_alert_history_complete runtime 200 str_eq (some 1) all_events ndjson user two_events
      ((omega arith, tt), (tt, tt))
      (unfold export_alert_history resolve_team_scope export_scoped build_history_conditions log in
        refl)

abbrev mapping : TeamLdapMapping
mapping = record { id = 1; team_id = 2; ldap_group_dn = "cn=web"; role = member }

abbrev mapped : Db
mapped = record database { ldap_mappings = mapping ∷ [] }

sync_memberships-IsSynced_example :
    IsSynced 1
      (matched_mappings runtime ("cn=web" ∷ []) mapped.ldap_mappings)
      mapped
      (sync_memberships runtime 200 1 ("cn=web" ∷ []) mapped)
sync_memberships-IsSynced_example = sync_memberships-IsSynced runtime 200 1 ("cn=web" ∷ []) mapped

-- A year later, with a resolved event beside the firing one.
abbrev old_events : Db
old_events = record database { events = event ∷ record event { id = 2; status = resolved } ∷ [] }

purge-events_example :
    HasPurged 40000000000000
      (load_settings runtime old_events)
      old_events
      (purge runtime 40000000000000 none old_events)
purge-events_example =
    purge-events runtime 40000000000000 none old_events ((omega arith, tt), (tt, tt))

abbrev body : RouteWrite
body = record {
  name = "pods of the team";
  description = none;
  action = notify;
  enabled = true;
  notify_on_firing = true;
  notify_on_resolved = true;
  include_shared = false;
  severities = some ("critical" ∷ []);
  namespaces_include = some ("apps" ∷ []);
  namespaces_exclude = none;
  clusters = some (1 ∷ []);
  channel_ids = 1 ∷ [];
  matchers = record { kind = include; target = label; key = some "pod"; pattern = "api" } ∷ [];
  template_id = none;
  escalation_enabled = true;
  escalation_after_minutes = some 5;
  escalation_channel_ids = 2 ∷ [];
  renotify_interval_minutes = none;
}

saves-IsValid_example :
    (r : RoutingRule) × IsValid runtime database r
    × IsOwner r.team_id user database
    × IsSaved
        (RouteSave.create 1)
        r
        database
        (saves runtime 200 (RouteSave.create 1) body user database).1
saves-IsValid_example = saves-IsValid runtime 200 body user database (RouteSave.create 1) (
    unfold create_route save_new checked_rule require_team_role get_team_or_404 validate_body
      validate_clusters_exist validate_template resolve_channels resolve_escalation_channels log in
    refl)

database-SoundShares : SoundShares runtime database
database-SoundShares = record {
  at_pair = λ o t. at_most_one (has_pair o t share);
  whole =
      ((unfold compile_share_scope build_transient_matchers compile_matchers in refl, refl), tt);
}
  where
    at_most_one : (b : Bool) → (if b then 1 else 0) ≤ 1
    at_most_one true = omega arith
    at_most_one false = omega arith

abbrev rescoped : ShareRequest
rescoped = ShareRequest.update 1 (record { mode = some view; matchers = some (some body.matchers) })

requested-SoundShares_example : SoundShares runtime (requested runtime 200 rescoped user database)
requested-SoundShares_example =
    requested-SoundShares runtime 200 rescoped user database database-SoundShares

-- One rule on each cluster, that another manages: it cannot be deleted and stays.
abbrev foreign_rules : ClusterRules
foreign_rules = record {
  list_rules = λ c id. reply ("pods" ∷ []);
  delete_rule = λ c name id. refused forbidden;
}

-- The second team is named by a share only.
abbrev small : Db
small = record database { rules = []; channels = [] }

delete_team-IsGone_example :
    (admin.is_admin ≡ true)
    × ((team : Team) × (get_team small 2 ≡ some team)
        × All (IsCleaned foreign_rules team.id) (filter (λ c. c.enabled) small.clusters))
    × IsGone 2 (delete_team foreign_rules 200 2 admin small).1
delete_team-IsGone_example = delete_team-IsGone foreign_rules 200 2 admin small (
    unfold delete_team require_admin get_team_or_404 clean_and_drop delete_all_rules delete_rules
      after_delete log drop_team is_referred_to in
    refl)
