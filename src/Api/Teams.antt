-- ===== src/Api/Teams.antt =====
-- The requests on teams: backend/app/api/teams.py.
pub mod Deleted
use k8s_alert_manager.Prelude.{
  ℕ, suc, String, Bool, true, false, not, ◌||◌, Option, none, some, List, [], ◌∷◌, ◌++◌, map,
  filter, any, update_where, ◌==◌, str_eq, if◌then◌else◌,
}
use k8s_alert_manager.Runtime.{Runtime}
use k8s_alert_manager.Models.Alert.{AlertEvent}
use k8s_alert_manager.Models.Audit.{AuditLog}
use k8s_alert_manager.Models.Cluster.{Cluster, Team}
use k8s_alert_manager.Models.User.{User, TeamMembership, member}
use k8s_alert_manager.Models.Db.{Db, get_team}
use k8s_alert_manager.Exec.{Exec, Error, http, integrity, failure, pure, raise, modify, ◌>>=◌, ◌>>◌}
use k8s_alert_manager.Ingest.{one_or_none}
use k8s_alert_manager.Api.{log, Answer, quietly}
use k8s_alert_manager.Api.Access.{require_admin, require_team_role, get_team_or_404}
use k8s_alert_manager.Api.Routes.{unless_is}
use k8s_alert_manager.Api.Routes.Checks.{demand}

abbrev pub slug_re : String
slug_re = "^[a-z0-9][a-z0-9-]{1,62}$"

pub record TeamCreate : Type 0 where
  pub slug : String
  pub name : String
  pub description : Option String

-- A field of none is one that is absent or null.
pub record TeamUpdate : Type 0 where
  pub name : Option String
  pub description : Option String

abbrev pub joined_team : Option Team → List Team
joined_team none = []
joined_team (some team) = team ∷ []

-- The join of a user's memberships with the teams.
abbrev pub teams_joined : Db → List TeamMembership → List Team
teams_joined db [] = []
teams_joined db (m ∷ ms) = joined_team (get_team db m.team_id) ++ teams_joined db ms

-- GET /teams
unfoldable pub list_teams : User → Exec (Answer (List Team))
list_teams user db =
    if user.is_admin
    then (pure (quietly db.teams)) db
    else (pure (quietly (teams_joined db (filter (λ m. m.user_id == user.id) db.memberships)))) db

-- GET /teams/all-brief
unfoldable pub list_teams_brief : Exec (Answer (List (ℕ × String × String)))
list_teams_brief db = pure (quietly (map (λ t. (t.id, t.slug, t.name)) db.teams)) db

-- GET /teams/{team_id}
unfoldable pub get_team_detail : ℕ → User → Exec (Answer Team)
unfolding require_team_role get_team_or_404
get_team_detail team_id user = do
  allowed ← require_team_role member team_id user
  team ← get_team_or_404 team_id
  pure (quietly team)

abbrev pub free_slug : Option Team → Exec (Unit {0})
free_slug none = pure tt
free_slug (some team) = raise (http 409)

abbrev pub or_kept {ℓ} : {A : Type ℓ} → A → Option A → A
or_kept a none = a
or_kept a (some b) = b

-- `if description is not None: team.description = description`
abbrev pub or_kept_option {ℓ} : {A : Type ℓ} → Option A → Option A → Option A
or_kept_option old none = old
or_kept_option old (some b) = some b

module _ (now : ℕ) where
  abbrev pub new_team : TeamCreate → Db → Team
  new_team body db = record {
    id = db.next_team_id;
    slug = body.slug;
    name = body.name;
    description = body.description;
  }

  abbrev pub add_team : TeamCreate → Exec Team
  add_team body db =
      (pure (new_team body db)) (record db {
        teams = db.teams ++ new_team body db ∷ [];
        next_team_id = suc db.next_team_id;
      })

  -- POST /teams. Of the violations of the unique slug, the one of another session's team is left out.
  unfoldable pub create_team : Runtime → TeamCreate → User → Exec (Answer Team)
  unfolding require_admin log
  create_team rt body user = do
    allowed ← require_admin user
    demand (rt.search slug_re body.slug)
    existing ← (λ db. one_or_none (filter (λ t. str_eq t.slug body.slug) db.teams) db)
    free_slug existing
    team ← add_team body
    log now (some user.id) (some team.id) "team.create" "team" team.slug
    pure (quietly team)

  abbrev pub renamed : TeamUpdate → Team → Team
  renamed body team = record team {
    name = or_kept team.name body.name;
    description = or_kept_option team.description body.description;
  }

  abbrev pub set_team : ℕ → (Team → Team) → Db → Db
  set_team id f db = record db { teams = update_where (λ t. t.id == id) f db.teams }

  -- PATCH /teams/{team_id}
  unfoldable pub update_team : ℕ → TeamUpdate → User → Exec (Answer Team)
  unfolding require_admin get_team_or_404 log
  update_team team_id body user = do
    allowed ← require_admin user
    team ← get_team_or_404 team_id
    modify (set_team team.id (renamed body))
    log now (some user.id) (some team.id) "team.update" "team" team.slug
    pure (quietly (renamed body team))

-- The exceptions of the clients of the clusters; `unexpected` is any other.
pub data ClusterError : Type 0 where
  unavailable bad_request forbidden conflict unexpected : ClusterError

-- What a cluster answers to a call.
pub data Reply (A : Type 0) : Type 0 where
  reply : A → Reply A
  refused : ClusterError → Reply A

-- The calls of services/k8s.py that the deletion of a team makes. They change a cluster and not the
-- database. A rule is listed by its name, which is empty where it has none.
pub record ClusterRules : Type 0 where
  pub list_rules : Cluster → ℕ → Reply (List String)
  pub delete_rule : Cluster → String → ℕ → Reply (Unit {0})

-- Unreachable, or another failure, which is not caught.
abbrev pub list_failure : ClusterError → Error
list_failure ClusterError.unavailable = http 503
list_failure ClusterError.bad_request = http 503
list_failure _ = failure

abbrev pub listed : Cluster → Reply (List String) → Exec (Cluster × List String)
listed cluster (reply names) = pure (cluster, names)
listed cluster (refused e) = raise (list_failure e)

-- Whether a failure concerns the one rule only.
abbrev pub is_rule_specific : ClusterError → Bool
is_rule_specific ClusterError.forbidden = true
is_rule_specific ClusterError.conflict = true
is_rule_specific ClusterError.bad_request = true
is_rule_specific _ = false

module _ (rules : ClusterRules) (now : ℕ) (user : User) (team : Team) where
  -- Each enabled cluster is listed before anything is deleted.
  abbrev pub list_clusters : List Cluster → Exec (List (Cluster × List String))
  list_clusters [] = pure []
  list_clusters (c ∷ cs) = do
    first ← listed c (rules.list_rules c team.id)
    others ← list_clusters cs
    pure (first ∷ others)

  unfoldable pub after_delete : String → Reply (Unit {0}) → Exec (Unit {0})
  unfolding log
  after_delete name (reply u) =
      log now (some user.id) (some team.id) "rule.delete" "prometheus_rule" name
  after_delete name (refused e) = if is_rule_specific e then pure tt else raise (http 503)

  unfoldable pub delete_rules : Cluster → List String → Exec (Unit {0})
  unfolding after_delete
  delete_rules cluster [] = pure tt
  delete_rules cluster (name ∷ names) = do
    if str_eq name "" then pure tt else after_delete name (rules.delete_rule cluster name team.id)
    delete_rules cluster names

  unfoldable pub delete_all_rules : List (Cluster × List String) → Exec (Unit {0})
  unfolding delete_rules
  delete_all_rules [] = pure tt
  delete_all_rules ((cluster, names) ∷ rest) = do delete_rules cluster names; delete_all_rules rest

-- The rows with a plain foreign key to the team, which hold its deletion up.
unfoldable pub is_referred_to : ℕ → Db → Bool
is_referred_to id db =
    any (λ r. r.team_id == id) db.rules
    || any (λ c. c.team_id == id) db.channels
    || any (λ t. t.team_id == id) db.templates
    || any (λ r. r.team_id == id) db.outbox

-- The explicit statements, and then the foreign keys that cascade or are set to NULL.
abbrev pub remove_team : ℕ → Db → Db
remove_team id db = record db {
  memberships = filter (λ m. not (m.team_id == id)) db.memberships;
  ldap_mappings = filter (λ m. not (m.team_id == id)) db.ldap_mappings;
  clusters =
      map {A = Cluster} (λ c. record c { heartbeat_team_id = unless_is id c.heartbeat_team_id })
        db.clusters;
  teams = filter (λ t. not (t.id == id)) db.teams;
  shares = filter (λ s. not (s.owner_team_id == id || s.target_team_id == id)) db.shares;
  events = map {A = AlertEvent} (λ e. record e { team_id = unless_is id e.team_id }) db.events;
  audit_logs =
      map {A = AuditLog} (λ a. record a { team_id = unless_is id a.team_id }) db.audit_logs;
}

unfoldable pub drop_team : ℕ → Exec (Unit {0})
unfolding is_referred_to
drop_team id db =
    if is_referred_to id db then (raise integrity) db else (modify (remove_team id)) db

-- From the deletion of the rules on.
unfoldable pub clean_and_drop :
    ClusterRules → ℕ → User → Team → List (Cluster × List String) → Exec (Answer (Unit {0}))
unfolding delete_all_rules log drop_team
clean_and_drop rules now user team found = do
  delete_all_rules rules now user team found
  log now (some user.id) (some team.id) "team.delete" "team" team.slug
  drop_team team.id
  pure (quietly tt)

-- DELETE /teams/{team_id}
unfoldable pub delete_team : ClusterRules → ℕ → ℕ → User → Exec (Answer (Unit {0}))
unfolding require_admin get_team_or_404 clean_and_drop
delete_team rules now team_id user = do
  allowed ← require_admin user
  team ← get_team_or_404 team_id
  found ← (λ db. list_clusters rules now user team (filter (λ c. c.enabled) db.clusters) db)
  clean_and_drop rules now user team found
