-- ===== src/Api/Access.antt =====
-- Who may do what: backend/app/api/deps.py and the checks on events of backend/app/api/alerts.py.
use k8s_alert_manager.Prelude.{
  ℕ, String, Bool, not, ◌&&◌, Option, none, some, List, map, any, filter, elem, ◌==◌, if◌then◌else◌,
  is_empty,
}
use k8s_alert_manager.Runtime.{Runtime}
use k8s_alert_manager.Models.Alert.{AlertEvent}
use k8s_alert_manager.Models.Cluster.{Team}
use k8s_alert_manager.Models.User.{User, TeamMembership, Role, is_owner}
use k8s_alert_manager.Models.Share.{AlertShare}
use k8s_alert_manager.Models.Db.{Db, get_event, get_team, get_user}
use k8s_alert_manager.Exec.{Exec, http, pure, raise, ◌>>=◌, ◌>>◌}
use k8s_alert_manager.Routing.Evaluate.{as_matchable}
use k8s_alert_manager.Sharing.{share_matches}
use k8s_alert_manager.Ingest.{one_or_none}

-- TeamMembership.team_id == team_id, TeamMembership.user_id == user_id
abbrev pub is_membership : ℕ → ℕ → TeamMembership → Bool
is_membership team_id user_id m = m.team_id == team_id && m.user_id == user_id

abbrev pub membership_of : ℕ → ℕ → Exec (Option TeamMembership)
membership_of team_id user_id db =
    one_or_none (filter (is_membership team_id user_id) db.memberships) db

abbrev pub active_user : Option User → Exec User
active_user none = raise (http 401)
active_user (some user) = if user.is_active then pure user else raise (http 401)

abbrev pub user_of_payload : Option ℕ → Exec User
user_of_payload none = raise (http 401)
user_of_payload (some user_id) = λ db. active_user (get_user db user_id) db

-- `decode_jwt` gives the user's id, or none where it raises a PyJWTError.
unfoldable pub get_current_user : (decode_jwt : String → Option ℕ) → Option String → Exec User
get_current_user decode_jwt none = raise (http 401)
get_current_user decode_jwt (some token) = user_of_payload (decode_jwt token)

unfoldable pub require_admin : User → Exec User
require_admin user = if user.is_admin then pure user else raise (http 403)

abbrev pub demands_owner : Role → TeamMembership → Bool
demands_owner role m = is_owner role && not (is_owner m.role)

abbrev pub member_with_role : Role → User → Option TeamMembership → Exec User
member_with_role role user none = raise (http 403)
member_with_role role user (some m) = if demands_owner role m then raise (http 403) else pure user

unfoldable pub require_team_role : Role → ℕ → User → Exec User
unfolding is_owner
require_team_role role team_id user =
    if user.is_admin
    then pure user
    else (do membership ← membership_of team_id user.id; member_with_role role user membership)

abbrev pub need_membership : {A : Type 0} → A → Option TeamMembership → Exec A
need_membership a none = raise (http 403)
need_membership a (some m) = pure a

abbrev pub scope_of_team : User → Option Team → Exec (Option Team)
scope_of_team user none = raise (http 404)
scope_of_team user (some team) =
    if user.is_admin
    then pure (some team)
    else (do membership ← membership_of team.id user.id; need_membership (some team) membership)

-- None is the scope of an admin who names no team.
unfoldable pub resolve_team_scope : Option ℕ → User → Exec (Option Team)
resolve_team_scope none user = if user.is_admin then pure none else raise (http 422)
resolve_team_scope (some team_id) user = λ db. scope_of_team user (get_team db team_id) db

abbrev pub or_404 : {A : Type 0} → Option A → Exec A
or_404 none = raise (http 404)
or_404 (some a) = pure a

unfoldable pub get_event_or_404 : ℕ → Exec AlertEvent
get_event_or_404 event_id db = or_404 (get_event db event_id) db

unfoldable pub get_team_or_404 : ℕ → Exec Team
get_team_or_404 team_id db = or_404 (get_team db team_id) db

abbrev pub member_access : User → Option ℕ → Exec (Unit {0})
member_access user none = raise (http 403)
member_access user (some team_id) = do
  membership ← membership_of team_id user.id
  need_membership tt membership

-- Changing an event: only an admin or a member of its team.
unfoldable pub authorize_event_access : AlertEvent → User → Exec (Unit {0})
authorize_event_access event user =
    if user.is_admin then pure tt else member_access user event.team_id

-- The two guards in front of each change of an event.
unfoldable pub guarded : {A : Type 0} → ℕ → User → (AlertEvent → Exec A) → Exec A
unfolding get_event_or_404 authorize_event_access
guarded event_id user change = do
  event ← get_event_or_404 event_id
  authorize_event_access event user
  change event

abbrev pub teams_of : ℕ → Db → List ℕ
teams_of user_id db = map (λ m. m.team_id) (filter (λ m. m.user_id == user_id) db.memberships)

module _ (rt : Runtime) where
  -- A share of the event's team with one of the teams, which lets the event through.
  abbrev pub shares_event : AlertEvent → ℕ → List ℕ → AlertShare → Bool
  shares_event event owner team_ids s =
      s.owner_team_id == owner
      && elem s.target_team_id team_ids
      && share_matches rt s (as_matchable event)

  abbrev pub read_access : AlertEvent → User → Option ℕ → Exec (Option (List ℕ))
  read_access event user none = raise (http 403)
  read_access event user (some owner) = λ db.
      let member_team_ids = teams_of user.id db in
      if elem owner member_team_ids
      then (pure none) db
      else if not (is_empty member_team_ids)
          && any (shares_event event owner member_team_ids) db.shares
      then (pure (some member_team_ids)) db
      else (raise (http 403)) db

  -- Reading an event. The answer is none for the full view, and the reader's own teams for the view
  -- through a share.
  unfoldable pub authorize_event_read_access : AlertEvent → User → Exec (Option (List ℕ))
  unfolding share_matches
  authorize_event_read_access event user =
      if user.is_admin then pure none else read_access event user event.team_id
