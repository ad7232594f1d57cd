-- ===== src/Api/Owned.antt =====
-- Who may manage a team: the check of a role in backend/app/api/deps.py.
use k8s_alert_manager.Prelude.{
  ℕ, ◌≡◌, refl, ◌⊎◌, inl, inr, Bool, true, false, if◌then◌else◌, Option, none, some, List, [], ◌∷◌,
  filter, Bool-cases, arith,
}
use k8s_alert_manager.Models.User.{User, TeamMembership, Role, owner, is_owner}
use k8s_alert_manager.Models.Db.{Db}
use k8s_alert_manager.Exec.{ok, http, pure, ◌>>=◌}
use k8s_alert_manager.Exec.Keeps.{Steps, Steps-pure, Steps-raise, Steps-bind, Steps-if}
use k8s_alert_manager.Exec.Reads.{Same, Same-preorder}
use k8s_alert_manager.Ingest.{one_or_none}
use k8s_alert_manager.Api.Access.{
  is_membership, membership_of, member_with_role, require_team_role, demands_owner,
}
use k8s_alert_manager.Api.Guarded.{membership_of-Same}

-- An admin, or a user with one membership of the team, as an owner.
abbrev pub IsOwner : ℕ → User → Db → Type 0
IsOwner team_id user db =
    (user.is_admin ≡ true)
    ⊎ ((m : TeamMembership) × (filter (is_membership team_id user.id) db.memberships ≡ m ∷ [])
        × (is_owner m.role ≡ true))

with_role-Same :
    (role : Role) (user : User) (o : Option TeamMembership)
    → Steps Same (member_with_role role user o)
with_role-Same role user none = Steps-raise Same-preorder (http 403)
with_role-Same role user (some m) =
    Steps-if Same-preorder (demands_owner role m) _ _ (λ on. Steps-raise Same-preorder (http 403))
      (λ off. Steps-pure Same-preorder user)

pub role-Same :
    (role : Role) (team_id : ℕ) (user : User) → Steps Same (require_team_role role team_id user)
unfolding require_team_role
role-Same role team_id user =
    Steps-if Same-preorder user.is_admin _ _ (λ on. Steps-pure Same-preorder user)
      (λ off.
        Steps-bind Same-preorder (membership_of team_id user.id) _
          (membership_of-Same team_id user.id) (with_role-Same role user))

pub role-IsOwner :
    (team_id : ℕ) (user allowed : User) (db : Db)
    → (require_team_role owner team_id user db).0 ≡ ok allowed
    → IsOwner team_id user db
unfolding require_team_role is_owner
role-IsOwner team_id user allowed db h = by_admin user.is_admin refl h
  where
    by_rows :
        (ms : List TeamMembership)
        → filter (is_membership team_id user.id) db.memberships ≡ ms
        → ((one_or_none ms >>= member_with_role owner user) db).0 ≡ ok allowed
        → (m : TeamMembership) × (filter (is_membership team_id user.id) db.memberships ≡ m ∷ [])
          × (is_owner m.role ≡ true)
    by_rows [] e k = absurd (ground arith)
    by_rows (m ∷ n ∷ ms) e k = absurd (ground arith)
    by_rows (m ∷ []) e k = elim (Bool-cases (is_owner m.role)) [
      | inl owns ↦ (m, e, owns)
      | inr not_owner ↦ absurd (ground (arith, rw not_owner at k))
    ]

    by_admin :
        (b : Bool)
        → user.is_admin ≡ b
        → ((if b then pure user else (do
          membership ← membership_of team_id user.id
          member_with_role owner user membership))
            db).0
          ≡ ok allowed
        → IsOwner team_id user db
    by_admin true e k = inl e
    by_admin false e k =
        inr (by_rows (filter (is_membership team_id user.id) db.memberships) refl k)
