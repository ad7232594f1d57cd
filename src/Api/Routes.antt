-- ===== src/Api/Routes.antt =====
-- The requests on routing rules: backend/app/api/routes.py.
pub mod Checks
pub mod Unchanged
pub mod Valid
pub mod Checked
pub mod Saved
use k8s_alert_manager.Prelude.{
  ℕ, suc, String, Bool, true, false, not, ◌&&◌, Option, none, some, List, [], ◌∷◌, ◌++◌, map,
  filter, any, str_eq, update_where, ◌==◌, if◌then◌else◌,
}
use k8s_alert_manager.Runtime.{Runtime}
use k8s_alert_manager.Models.Routing.{RoutingRule, RoutingMatcher, is_notify}
use k8s_alert_manager.Models.Alert.{AlertEvent}
use k8s_alert_manager.Models.Share.{MatcherDict}
use k8s_alert_manager.Sharing.{build_transient_matchers}
use k8s_alert_manager.Routing.Preview.{PreviewResult, preview_rule}
use k8s_alert_manager.Models.Outbox.{NotificationOutbox}
use k8s_alert_manager.Models.Scheduled.{ScheduledAction}
use k8s_alert_manager.Models.User.{User, owner, member}
use k8s_alert_manager.Models.Db.{Db, get_rule}
use k8s_alert_manager.Exec.{Exec, http, integrity, pure, raise, modify, ◌>>=◌, ◌>>◌}
use k8s_alert_manager.Api.{log, Answer, quietly}
use k8s_alert_manager.Api.Access.{require_team_role, get_team_or_404, or_404}
use k8s_alert_manager.Api.Routes.Checks.{
  MatcherInput, RouteWrite, validate_body, validate_clusters_exist, validate_template,
  resolve_channels, resolve_escalation_channels,
}

abbrev preview_limit : ℕ
preview_limit = 200

-- UNIQUE (team_id, name)
abbrev pub has_name : ℕ → String → RoutingRule → Bool
has_name team_id name r = r.team_id == team_id && str_eq r.name name

unfoldable pub get_rule_or_404 : ℕ → Exec RoutingRule
get_rule_or_404 rule_id db = or_404 (get_rule db rule_id) db

abbrev pub numbered : ℕ → List MatcherInput → List RoutingMatcher
numbered position [] = []
numbered position (m ∷ ms) =
    record {
      kind = m.kind;
      target = m.target;
      key = m.key;
      pattern = m.pattern;
      position = position;
    }
    ∷ numbered (suc position) ms

unfoldable pub escalates_with : RouteWrite → Bool
unfolding is_notify
escalates_with body = is_notify body.action && body.escalation_enabled

-- The rule that a body describes, with the channels that were resolved. An update sets each column but
-- the id and the team.
unfoldable pub rule_of : ℕ → ℕ → RouteWrite → List ℕ → List ℕ → RoutingRule
unfolding escalates_with is_notify
rule_of id team_id body channels escalation_channels = record {
  id = id;
  team_id = team_id;
  name = body.name;
  description = body.description;
  action = body.action;
  enabled = body.enabled;
  notify_on_firing = body.notify_on_firing;
  notify_on_resolved = body.notify_on_resolved;
  include_shared = body.include_shared;
  escalation_enabled = escalates_with body;
  escalation_after_minutes = if escalates_with body then body.escalation_after_minutes else none;
  renotify_interval_minutes =
      if is_notify body.action then body.renotify_interval_minutes else none;
  severities = body.severities;
  namespaces_include = body.namespaces_include;
  namespaces_exclude = body.namespaces_exclude;
  clusters = body.clusters;
  template_id = body.template_id;
  matchers = numbered 0 body.matchers;
  channels = channels;
  escalation_channels = escalation_channels;
}

-- The dicts of `model_dump`.
abbrev pub dumped : MatcherInput → MatcherDict
dumped m = record {
  kind = some m.kind;
  target = some m.target;
  key = m.key;
  pattern = some m.pattern;
}

-- The draft that is evaluated, never saved: it has no id, and its other columns are not read.
abbrev pub build_transient_rule : ℕ → RouteWrite → RoutingRule
build_transient_rule team_id body = record (rule_of 0 team_id body [] []) {
  include_shared = false;
  escalation_enabled = false;
  escalation_after_minutes = none;
  renotify_interval_minutes = none;
  template_id = none;
  matchers = [];
}

abbrev pub unless_is : ℕ → Option ℕ → Option ℕ
unless_is id none = none
unless_is id (some n) = if n == id then none else some n

-- The events, rows and timers that name the rule are ON DELETE SET NULL.
abbrev pub remove_rule : ℕ → Db → Db
remove_rule id db = record db {
  rules = filter (λ r. not (r.id == id)) db.rules;
  events =
      map {A = AlertEvent}
        (λ e. record e { suppressed_by_rule_id = unless_is id e.suppressed_by_rule_id }) db.events;
  outbox =
      map {A = NotificationOutbox}
        (λ r. record r { routing_rule_id = unless_is id r.routing_rule_id }) db.outbox;
  actions =
      map {A = ScheduledAction} (λ a. record a { routing_rule_id = unless_is id a.routing_rule_id })
        db.actions;
}

module _ (rt : Runtime) (now : ℕ) where
  unfoldable pub checked_rule : ℕ → ℕ → RouteWrite → Exec RoutingRule
  unfolding validate_body validate_clusters_exist validate_template resolve_channels
      resolve_escalation_channels rule_of
  checked_rule id team_id body = do
    validate_body rt body
    validate_clusters_exist body.clusters
    validate_template team_id body.template_id
    channels ← resolve_channels team_id body.action body.channel_ids
    escalation_channels ←
        resolve_escalation_channels team_id
          (if escalates_with body then body.escalation_channel_ids else [])
    pure (rule_of id team_id body channels escalation_channels)

  abbrev pub add_rule : RoutingRule → Db → Db
  add_rule rule db = record db { rules = db.rules ++ rule ∷ []; next_rule_id = suc db.next_rule_id }

  -- The flush, where UNIQUE (team_id, name) may fail; nothing catches that.
  abbrev pub insert_rule : RoutingRule → Exec (Unit {0})
  insert_rule rule db =
      if any (has_name rule.team_id rule.name) db.rules
      then (raise integrity) db
      else (modify (add_rule rule)) db

  unfoldable pub save_new : ℕ → RouteWrite → User → Exec (Answer RoutingRule)
  unfolding checked_rule log
  save_new team_id body actor db =
      (do
        rule ← checked_rule db.next_rule_id team_id body
        insert_rule rule
        log now (some actor.id) (some team_id) "route.create" "routing_rule" rule.name
        pure (quietly rule))
        db

  -- POST /teams/{team_id}/routes
  unfoldable pub create_route : ℕ → RouteWrite → User → Exec (Answer RoutingRule)
  unfolding require_team_role get_team_or_404 save_new
  create_route team_id body actor = do
    allowed ← require_team_role owner team_id actor
    team ← get_team_or_404 team_id
    save_new team_id body actor

  abbrev pub set_rule : RoutingRule → Db → Db
  set_rule rule db = record db { rules = update_where (λ r. r.id == rule.id) (λ r. rule) db.rules }

  -- The flush of an update, where another rule of the team may have the name.
  abbrev pub replace_rule : RoutingRule → Exec (Unit {0})
  replace_rule rule db =
      if any (λ r. not (r.id == rule.id) && has_name rule.team_id rule.name r) db.rules
      then (raise integrity) db
      else (modify (set_rule rule)) db

  unfoldable pub save_changed : RouteWrite → User → RoutingRule → Exec (Answer RoutingRule)
  unfolding checked_rule log
  save_changed body actor old = do
    rule ← checked_rule old.id old.team_id body
    replace_rule rule
    log now (some actor.id) (some old.team_id) "route.update" "routing_rule" rule.name
    pure (quietly rule)

  -- PUT /routes/{route_id}
  unfoldable pub update_route : ℕ → RouteWrite → User → Exec (Answer RoutingRule)
  unfolding require_team_role get_rule_or_404 save_changed
  update_route route_id body actor = do
    rule ← get_rule_or_404 route_id
    allowed ← require_team_role owner rule.team_id actor
    save_changed body actor rule

  -- DELETE /routes/{route_id}
  unfoldable pub delete_route : ℕ → User → Exec (Answer (Unit {0}))
  unfolding require_team_role get_rule_or_404 log
  delete_route route_id actor = do
    rule ← get_rule_or_404 route_id
    allowed ← require_team_role owner rule.team_id actor
    log now (some actor.id) (some rule.team_id) "route.delete" "routing_rule" rule.name
    modify (remove_rule rule.id)
    pure (quietly tt)

  -- GET /routes/{route_id}
  unfoldable pub get_route : ℕ → User → Exec (Answer RoutingRule)
  unfolding require_team_role get_rule_or_404
  get_route route_id actor = do
    rule ← get_rule_or_404 route_id
    allowed ← require_team_role member rule.team_id actor
    pure (quietly rule)

  -- GET /teams/{team_id}/routes
  unfoldable pub list_routes : ℕ → User → Exec (Answer (List RoutingRule))
  unfolding require_team_role get_team_or_404
  list_routes team_id actor = do
    allowed ← require_team_role member team_id actor
    team ← get_team_or_404 team_id
    (λ db. pure (quietly (filter (λ r. r.team_id == team_id) db.rules)) db)

  -- POST /teams/{team_id}/routes/preview
  unfoldable pub preview_routes : ℕ → RouteWrite → User → Exec (Answer (List PreviewResult))
  unfolding require_team_role get_team_or_404 validate_body rule_of build_transient_matchers
      preview_rule
  preview_routes team_id body actor = do
    allowed ← require_team_role member team_id actor
    team ← get_team_or_404 team_id
    validate_body rt body
    (λ db.
        pure
          (quietly (
            preview_rule rt db team_id (build_transient_rule team_id body)
              (build_transient_matchers (map dumped body.matchers)) preview_limit))
          db)
