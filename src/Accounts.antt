-- ===== src/Accounts.antt =====
-- backend/app/services/auth_sync.py: an account and its memberships, from the directory's answer.
pub mod Synced
use k8s_alert_manager.Prelude.{
  ℕ, suc, String, ◌≡◌, refl, Bool, true, false, not, ◌&&◌, ◌||◌, Option, none, some, List, [], ◌∷◌,
  ◌++◌, map, filter, find, any, elem, str_elem, str_eq, update_where, ◌==◌, if◌then◌else◌,
}
use k8s_alert_manager.Runtime.{Runtime}
use k8s_alert_manager.Models.User.{User, TeamMembership, TeamLdapMapping, Role, ldap, is_ldap}
use k8s_alert_manager.Models.Db.{Db, get_user, set_user}
use k8s_alert_manager.Exec.{Exec, pure, modify, ◌>>=◌, ◌>>◌}
use k8s_alert_manager.Ingest.{one_or_none}
use k8s_alert_manager.Api.Access.{is_membership}

-- LdapUserInfo of services/ldap_auth.py
pub record LdapUserInfo : Type 0 where
  pub username : String
  pub display_name : String
  pub email : Option String
  pub group_dns : List String

module _ (rt : Runtime) where
  unfoldable pub normalize_dn : String → String
  normalize_dn dn = rt.lower (rt.sub ",\\s+" "," (rt.strip dn))

  abbrev pub admin_dns : List String
  unfolding normalize_dn
  admin_dns =
      map normalize_dn
        (filter (λ dn. not (str_eq (rt.strip dn) "")) (rt.split "\\s*;\\s*" rt.ldap_admin_groups))

  unfoldable pub is_admin_group : List String → Bool
  unfolding admin_dns normalize_dn
  is_admin_group group_dns = any (λ dn. str_elem (normalize_dn dn) admin_dns) group_dns

  abbrev pub matches_groups : List String → TeamLdapMapping → Bool
  unfolding normalize_dn
  matches_groups group_dns m = str_elem (normalize_dn m.ldap_group_dn) (map normalize_dn group_dns)

  unfoldable pub matched_mappings : List String → List TeamLdapMapping → List TeamLdapMapping
  unfolding matches_groups
  matched_mappings group_dns mappings = filter (matches_groups group_dns) mappings

abbrev pub add_membership : ℕ → ℕ → Role → Db → Db
add_membership team_id user_id role db = record db {
  memberships =
      db.memberships
      ++ record {
        id = db.next_membership_id;
        team_id = team_id;
        user_id = user_id;
        role = role;
        origin = ldap;
      }
        ∷ [];
  next_membership_id = suc db.next_membership_id;
}

abbrev pub with_role : Role → TeamMembership → TeamMembership
with_role role m = record m { role = role }

-- A user has at most one row for a team, so the row is the one with the pair.
abbrev pub is_ldap_row : ℕ → ℕ → TeamMembership → Bool
unfolding is_ldap
is_ldap_row team_id user_id m = is_membership team_id user_id m && is_ldap m.origin

abbrev pub set_role : ℕ → ℕ → Role → Db → Db
set_role team_id user_id role db = record db {
  memberships = update_where (is_ldap_row team_id user_id) (with_role role) db.memberships;
}

-- A missing row is added; one that came from the directory takes the role; a manual one stays.
abbrev pub sync_mapping : ℕ → TeamLdapMapping → Db → Db
sync_mapping user_id mapping db =
    if any (is_membership mapping.team_id user_id) db.memberships
    then set_role mapping.team_id user_id mapping.role db
    else add_membership mapping.team_id user_id mapping.role db

unfoldable pub sync_mappings : ℕ → List TeamLdapMapping → Db → Db
unfolding is_ldap_row
sync_mappings user_id [] db = db
sync_mappings user_id (m ∷ ms) db = sync_mappings user_id ms (sync_mapping user_id m db)

-- A row of the user from the directory, for a team that no mapping gives any more.
abbrev pub is_withdrawn : ℕ → List ℕ → TeamMembership → Bool
unfolding is_ldap
is_withdrawn user_id matched_team_ids m =
    m.user_id == user_id && is_ldap m.origin && not (elem m.team_id matched_team_ids)

abbrev pub remove_withdrawn : ℕ → List ℕ → Db → Db
remove_withdrawn user_id matched_team_ids db = record db {
  memberships = filter (λ m. not (is_withdrawn user_id matched_team_ids m)) db.memberships;
}

module _ (rt : Runtime) (now : ℕ) where
  unfoldable pub sync_memberships : ℕ → List String → Db → Db
  unfolding matched_mappings sync_mappings is_withdrawn
  sync_memberships user_id group_dns db =
      let matched = matched_mappings rt group_dns db.ldap_mappings in
      remove_withdrawn user_id (map (λ m. m.team_id) matched) (sync_mappings user_id matched db)

  abbrev pub refreshed : LdapUserInfo → User → User
  unfolding is_admin_group
  refreshed info user = record user {
    display_name = info.display_name;
    email = info.email;
    last_login_at = some now;
    is_admin = user.is_admin || is_admin_group rt info.group_dns;
  }

  abbrev pub new_user : ℕ → LdapUserInfo → User
  unfolding is_admin_group
  new_user id info = record {
    id = id;
    username = info.username;
    display_name = info.display_name;
    email = info.email;
    is_admin = is_admin_group rt info.group_dns;
    is_active = true;
    last_login_at = some now;
  }

  abbrev pub add_user : User → Db → Db
  add_user user db = record db { users = db.users ++ user ∷ []; next_user_id = suc db.next_user_id }

  abbrev pub upsert_user : LdapUserInfo → Option User → Exec User
  upsert_user info none =
      λ db. let user = new_user db.next_user_id info in (do modify (add_user user); pure user) db
  upsert_user info (some user) = do
    modify (set_user user.id (refreshed info))
    pure (refreshed info user)

  unfoldable pub sync_user : LdapUserInfo → Exec User
  unfolding refreshed new_user sync_memberships
  sync_user info = do
    found ← (λ db. one_or_none (filter (λ u. str_eq u.username info.username) db.users) db)
    user ← upsert_user info found
    modify (sync_memberships user.id info.group_dns)
    pure user
