-- ===== src/Models/User.antt =====
-- backend/app/models/user.py, with the memberships and LDAP mappings of backend/app/models/team.py.
use k8s_alert_manager.Prelude.{ℕ, String, Bool, true, false, Option}

pub data Role : Type 0 where
  owner member : Role

unfoldable pub is_owner : Role → Bool
is_owner owner = true
is_owner member = false

pub data Origin : Type 0 where
  ldap manual : Origin

unfoldable pub is_ldap : Origin → Bool
is_ldap ldap = true
is_ldap manual = false

pub record User : Type 0 where
  pub id : ℕ
  pub username : String
  pub display_name : String
  pub email : Option String
  pub is_admin : Bool
  pub is_active : Bool
  pub last_login_at : Option ℕ

pub record TeamMembership : Type 0 where
  pub id : ℕ
  pub team_id : ℕ
  pub user_id : ℕ
  pub role : Role
  pub origin : Origin

pub record TeamLdapMapping : Type 0 where
  pub id : ℕ
  pub team_id : ℕ
  pub ldap_group_dn : String
  pub role : Role
