-- ===== src/Api/Members.antt =====
-- The members of a team and its groups in the directory: backend/app/api/teams.py.
use k8s_alert_manager.Prelude.{
  ℕ, suc, String, not, ◌&&◌, Option, none, some, List, [], ◌∷◌, ◌++◌, filter, any, ◌==◌, str_eq,
  if◌then◌else◌,
}
use k8s_alert_manager.Text.{str}
use k8s_alert_manager.Models.User.{
  User, Role, Origin, manual, TeamMembership, TeamLdapMapping, owner, member,
}
use k8s_alert_manager.Models.Db.{Db, get_user}
use k8s_alert_manager.Exec.{Exec, http, pure, raise, modify, ◌>>=◌, ◌>>◌}
use k8s_alert_manager.Ingest.{one_or_none}
use k8s_alert_manager.Api.{log, Answer, quietly}
use k8s_alert_manager.Api.Access.{membership_of, require_team_role, get_team_or_404, or_404}

pub record MemberPayload : Type 0 where
  pub membership_id : ℕ
  pub user_id : ℕ
  pub username : String
  pub display_name : String
  pub role : Role
  pub origin : Origin

abbrev pub member_payload : TeamMembership → User → MemberPayload
member_payload membership user = record {
  membership_id = membership.id;
  user_id = user.id;
  username = user.username;
  display_name = user.display_name;
  role = membership.role;
  origin = membership.origin;
}

abbrev pub joined_user : TeamMembership → Option User → List MemberPayload
joined_user m none = []
joined_user m (some user) = member_payload m user ∷ []

abbrev pub join_users : Db → List TeamMembership → List MemberPayload
join_users db [] = []
join_users db (m ∷ ms) = joined_user m (get_user db m.user_id) ++ join_users db ms

-- GET /teams/{team_id}/members
unfoldable pub list_members : ℕ → User → Exec (Answer (List MemberPayload))
unfolding require_team_role get_team_or_404
list_members team_id user = do
  allowed ← require_team_role member team_id user
  team ← get_team_or_404 team_id
  (λ db. pure (quietly (join_users db (filter (λ m. m.team_id == team_id) db.memberships))) db)

abbrev pub not_yet : Option TeamMembership → Exec (Unit {0})
not_yet none = pure tt
not_yet (some membership) = raise (http 409)

abbrev pub username_or_id : ℕ → Option User → String
unfolding str
username_or_id user_id none = str user_id
username_or_id user_id (some user) = user.username

module _ (now : ℕ) where
  abbrev pub new_member : ℕ → ℕ → Role → Db → TeamMembership
  new_member team_id user_id role db = record {
    id = db.next_membership_id;
    team_id = team_id;
    user_id = user_id;
    role = role;
    origin = manual;
  }

  unfoldable pub insert_member : ℕ → ℕ → Role → Exec TeamMembership
  insert_member team_id user_id role db = (pure (new_member team_id user_id role db)) (record db {
    memberships = db.memberships ++ new_member team_id user_id role db ∷ [];
    next_membership_id = suc db.next_membership_id;
  })

  -- POST /teams/{team_id}/members
  unfoldable pub add_member : ℕ → ℕ → Role → User → Exec (Answer MemberPayload)
  unfolding require_team_role get_team_or_404 insert_member log
  add_member team_id user_id role actor = do
    allowed ← require_team_role owner team_id actor
    team ← get_team_or_404 team_id
    target ← (λ db. or_404 (get_user db user_id) db)
    existing ← membership_of team_id user_id
    not_yet existing
    membership ← insert_member team_id user_id role
    log now (some actor.id) (some team.id) "team.member.add" "team_membership" target.username
    pure (quietly (member_payload membership target))

  abbrev pub find_member : ℕ → ℕ → Exec (Option TeamMembership)
  find_member team_id membership_id db =
      one_or_none (filter (λ m. m.id == membership_id && m.team_id == team_id) db.memberships) db

  abbrev pub drop_member : ℕ → Db → Db
  drop_member id db = record db { memberships = filter (λ m. not (m.id == id)) db.memberships }

  -- DELETE /teams/{team_id}/members/{membership_id}
  unfoldable pub remove_member : ℕ → ℕ → User → Exec (Answer (Unit {0}))
  unfolding require_team_role get_team_or_404 log username_or_id
  remove_member team_id membership_id actor = do
    allowed ← require_team_role owner team_id actor
    team ← get_team_or_404 team_id
    found ← find_member team_id membership_id
    membership ← or_404 found
    (λ db.
        log now (some actor.id) (some team.id) "team.member.remove" "team_membership"
          (username_or_id membership.user_id (get_user db membership.user_id)) db)
    modify (drop_member membership.id)
    pure (quietly tt)

  -- GET /teams/{team_id}/ldap-mappings
  unfoldable pub list_ldap_mappings : ℕ → User → Exec (Answer (List TeamLdapMapping))
  unfolding require_team_role get_team_or_404
  list_ldap_mappings team_id user = do
    allowed ← require_team_role owner team_id user
    team ← get_team_or_404 team_id
    (λ db. pure (quietly (filter (λ m. m.team_id == team_id) db.ldap_mappings)) db)

  abbrev pub new_mapping : ℕ → String → Role → Db → TeamLdapMapping
  new_mapping team_id ldap_group_dn role db = record {
    id = db.next_mapping_id;
    team_id = team_id;
    ldap_group_dn = ldap_group_dn;
    role = role;
  }

  -- The flush, which is rolled back when UNIQUE (team_id, ldap_group_dn) fails.
  unfoldable pub insert_mapping : ℕ → String → Role → Exec TeamLdapMapping
  insert_mapping team_id ldap_group_dn role db =
      if any (λ m. m.team_id == team_id && str_eq m.ldap_group_dn ldap_group_dn) db.ldap_mappings
      then (raise (http 409)) db
      else (pure (new_mapping team_id ldap_group_dn role db)) (record db {
        ldap_mappings = db.ldap_mappings ++ new_mapping team_id ldap_group_dn role db ∷ [];
        next_mapping_id = suc db.next_mapping_id;
      })

  -- POST /teams/{team_id}/ldap-mappings; pydantic has refused an empty name.
  unfoldable pub create_ldap_mapping : ℕ → String → Role → User → Exec (Answer TeamLdapMapping)
  unfolding require_team_role get_team_or_404 insert_mapping log
  create_ldap_mapping team_id ldap_group_dn role actor = do
    allowed ← require_team_role owner team_id actor
    team ← get_team_or_404 team_id
    mapping ← insert_mapping team_id ldap_group_dn role
    log now (some actor.id) (some team.id) "team.ldap_mapping.add" "team_ldap_mapping" ldap_group_dn
    pure (quietly mapping)

  abbrev pub find_mapping : ℕ → ℕ → Exec (Option TeamLdapMapping)
  find_mapping team_id mapping_id db =
      one_or_none (filter (λ m. m.id == mapping_id && m.team_id == team_id) db.ldap_mappings) db

  abbrev pub drop_mapping : ℕ → Db → Db
  drop_mapping id db = record db { ldap_mappings = filter (λ m. not (m.id == id)) db.ldap_mappings }

  -- DELETE /teams/{team_id}/ldap-mappings/{mapping_id}
  unfoldable pub delete_ldap_mapping : ℕ → ℕ → User → Exec (Answer (Unit {0}))
  unfolding require_team_role get_team_or_404 log
  delete_ldap_mapping team_id mapping_id actor = do
    allowed ← require_team_role owner team_id actor
    team ← get_team_or_404 team_id
    found ← find_mapping team_id mapping_id
    mapping ← or_404 found
    log now (some actor.id) (some team.id) "team.ldap_mapping.remove" "team_ldap_mapping"
        mapping.ldap_group_dn
    modify (drop_mapping mapping.id)
    pure (quietly tt)
