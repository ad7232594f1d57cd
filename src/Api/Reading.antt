-- ===== src/Api/Reading.antt =====
-- Who may read an event and who may change it: `_authorize_event_read_access` and
-- `_authorize_event_access` of backend/app/api/alerts.py.
use k8s_alert_manager.Prelude.{
  ℕ, ◌≡◌, refl, sym, ◌∙◌, ◌↔◌, ◌⊎◌, inl, inr, subst, filter, true, false, Option, none, some, List,
  [], ◌∷◌, map, any, elem, ◌==◌, ==_iff, Any, any→Any, Any→any, Bool-cases, is_empty, arith,
}
use mathlib.Core.Option.{some-injective}
use k8s_alert_manager.Runtime.{Runtime}
use k8s_alert_manager.Models.Alert.{AlertEvent}
use k8s_alert_manager.Models.User.{User, TeamMembership}
use k8s_alert_manager.Models.Share.{AlertShare}
use k8s_alert_manager.Models.Db.{Db}
use k8s_alert_manager.Exec.{ok, ◌>>=◌}
use k8s_alert_manager.Routing.Evaluate.{as_matchable}
use k8s_alert_manager.Sharing.{share_matches}
use k8s_alert_manager.Ingest.{one_or_none}
use k8s_alert_manager.Api.Access.{
  is_membership, need_membership, member_access, authorize_event_access, teams_of, shares_event,
  read_access, authorize_event_read_access,
}

abbrev pub IsMember : ℕ → ℕ → Db → Type 0
IsMember team_id user_id db =
    Any (λ m. (m.team_id ≡ team_id) × (m.user_id ≡ user_id)) db.memberships

-- A share of the team with a team of the user, which lets the event through.
abbrev pub IsSharedWith : Runtime → AlertEvent → ℕ → ℕ → Db → Type 0
IsSharedWith rt event owner user_id db =
    Any
      (λ s.
        (s.owner_team_id ≡ owner)
        × IsMember s.target_team_id user_id db
        × (share_matches rt s (as_matchable event) ≡ true))
      db.shares

abbrev pub CanRead : Runtime → AlertEvent → User → Db → Type 0
CanRead rt event user db =
    (user.is_admin ≡ true)
    ⊎ ((owner : ℕ) × (event.team_id ≡ some owner)
        × (IsMember owner user.id db ⊎ IsSharedWith rt event owner user.id db))

Any-map :
    {A : Type 0} (P Q : A → Type 0) (xs : List A) → ((x : A) → P x → Q x) → Any P xs → Any Q xs
Any-map P Q [] f h = absurd h
Any-map P Q (x ∷ xs) f (inl h) = inl (f x h)
Any-map P Q (x ∷ xs) f (inr h) = inr (Any-map P Q xs f h)

team_rows : ℕ → List TeamMembership → List ℕ
team_rows user_id ms = map (λ m. m.team_id) (filter (λ m. m.user_id == user_id) ms)

elem-rows :
    (t u : ℕ) (ms : List TeamMembership)
    → (elem t (team_rows u ms) ≡ true) ↔ Any (λ m. (m.team_id ≡ t) × (m.user_id ≡ u)) ms
unfolding team_rows
elem-rows t u ms = (to ms, from ms)
  where
    to :
        (ms : List TeamMembership)
        → elem t (team_rows u ms) ≡ true
        → Any (λ m. (m.team_id ≡ t) × (m.user_id ≡ u)) ms
    to [] h = absurd (ground arith)
    to (m ∷ ms) h = elim (Bool-cases (m.user_id == u)) [
      | inl same ↦ elim (Bool-cases (m.team_id == t)) [
        | inl here ↦ inl ((==_iff m.team_id t).0 here, (==_iff m.user_id u).0 same)
        | inr other ↦ inr (to ms (rw (same, other) at h))
      ]
      | inr other ↦ inr (to ms (rw other at h))
    ]

    from :
        (ms : List TeamMembership)
        → Any (λ m. (m.team_id ≡ t) × (m.user_id ≡ u)) ms
        → elem t (team_rows u ms) ≡ true
    from [] h = absurd h
    from (m ∷ ms) (inl (e, f)) = ground (arith, e, f)
    from (m ∷ ms) (inr h) = ground (arith, from ms h)

pub elem-teams_of : (t u : ℕ) (db : Db) → (elem t (teams_of u db) ≡ true) ↔ IsMember t u db
unfolding team_rows
elem-teams_of t u db = elem-rows t u db.memberships

member_row :
    (t u : ℕ) (ms : List TeamMembership)
    → is_empty (filter (is_membership t u) ms) ≡ false
    → Any (λ m. (m.team_id ≡ t) × (m.user_id ≡ u)) ms
member_row t u [] h = absurd (ground arith)
member_row t u (m ∷ ms) h = elim (Bool-cases (is_membership t u m)) [
  | inl here ↦ inl (ground (arith, here), ground (arith, here))
  | inr other ↦ inr (member_row t u ms (rw other at h))
]

pub member_access-IsMember :
    (t : ℕ) (user : User) (db : Db)
    → (member_access user (some t) db).0 ≡ ok tt
    → IsMember t user.id db
member_access-IsMember t user db h =
    member_row t user.id db.memberships
      (by_rows (filter (is_membership t user.id) db.memberships) h)
  where
    by_rows :
        (ms : List TeamMembership)
        → ((one_or_none ms >>= need_membership tt) db).0 ≡ ok tt
        → is_empty ms ≡ false
    by_rows [] k = absurd (ground arith)
    by_rows (m ∷ ms) k = refl

module _ (rt : Runtime) (event : AlertEvent) (user : User) (db : Db) where
  shares_event_iff :
      (owner : ℕ) (s : AlertShare)
      → (shares_event rt event owner (teams_of user.id db) s ≡ true) ↔ (
          (s.owner_team_id ≡ owner)
          × IsMember s.target_team_id user.id db
          × (share_matches rt s (as_matchable event) ≡ true))
  shares_event_iff owner s =
      let teams = elem-teams_of s.target_team_id user.id db in
      (
        λ h. (ground (arith, h), teams.0 (ground (arith, h)), ground (arith, h)),
        λ (e, m, k). ground (arith, e, teams.1 m, k),
      )

  any-shares_iff :
      (owner : ℕ)
      → (any (shares_event rt event owner (teams_of user.id db)) db.shares ≡ true)
        ↔ IsSharedWith rt event owner user.id db
  any-shares_iff owner = (
    λ h.
        Any-map _ _ db.shares (λ s k. (shares_event_iff owner s).0 k)
          (any→Any (shares_event rt event owner (teams_of user.id db)) db.shares h),
    λ h.
        Any→any (shares_event rt event owner (teams_of user.id db)) db.shares
          (Any-map _ _ db.shares (λ s k. (shares_event_iff owner s).1 k) h),
  )

  elem-nonempty : (n : ℕ) (xs : List ℕ) → elem n xs ≡ true → is_empty xs ≡ false
  elem-nonempty n [] h = absurd (ground arith)
  elem-nonempty n (x ∷ xs) h = refl

  shared-nonempty :
      (owner : ℕ) (ss : List AlertShare)
      → any (shares_event rt event owner (teams_of user.id db)) ss ≡ true
      → is_empty (teams_of user.id db) ≡ false
  shared-nonempty owner [] h = absurd (ground arith)
  shared-nonempty owner (s ∷ ss) h =
      elim (Bool-cases (shares_event rt event owner (teams_of user.id db) s)) [
        | inl here ↦ elem-nonempty s.target_team_id (teams_of user.id db) (ground (arith, here))
        | inr other ↦ shared-nonempty owner ss (rw other at h)
      ]

  abbrev teams : List ℕ
  teams = teams_of user.id db

  by_owner :
      (owner : ℕ)
      → ((r : Option (List ℕ)) × ((read_access rt event user (some owner) db).0 ≡ ok r))
        ↔ (IsMember owner user.id db ⊎ IsSharedWith rt event owner user.id db)
  by_owner owner = elim (Bool-cases (elem owner teams)) [
    | inl inside ↦
        (λ h. inl ((elem-teams_of owner user.id db).0 inside), λ h. rw inside (none, refl))
    | inr outside ↦ elim (Bool-cases (any (shares_event rt event owner teams) db.shares)) [
      | inl shared ↦
          let some_team = shared-nonempty owner db.shares shared in
          (
            λ h. inr ((any-shares_iff owner).0 shared),
            λ h. rw (outside, some_team, shared) (some teams, refl),
          )
      | inr hidden ↦ (
        λ (r, h). absurd (ground (arith, outside, hidden, h)),
        λ h. elim h [
          | inl m ↦ absurd (ground (arith, outside, (elem-teams_of owner user.id db).1 m))
          | inr s ↦ absurd (ground (arith, hidden, (any-shares_iff owner).1 s))
        ],
      )
    ]
  ]

  by_team :
      (o : Option ℕ)
      → event.team_id ≡ o
      → ((r : Option (List ℕ)) × ((read_access rt event user o db).0 ≡ ok r)) ↔ (
          (owner : ℕ) × (event.team_id ≡ some owner)
          × (IsMember owner user.id db ⊎ IsSharedWith rt event owner user.id db))
  by_team none e =
      (λ (r, h). absurd (ground (arith, h)), λ (owner, f, h). absurd (ground (arith, e, f)))
  by_team (some owner) e = (
    λ h. (owner, e, (by_owner owner).0 h),
    λ (other, f, h). (by_owner owner).1 (
        subst (λ t. IsMember t user.id db ⊎ IsSharedWith rt event t user.id db)
          (some-injective other owner (sym f ∙ e)) h),
  )

  -- Reading an event is answered, rather than refused, exactly if the user is an admin, or the event
  -- has a team and the user is a member of it or of a team that a share of it lets the event through
  -- to.
  pub authorize_event_read_access_iff :
      ((r : Option (List ℕ)) × ((authorize_event_read_access rt event user db).0 ≡ ok r))
      ↔ CanRead rt event user db
  unfolding authorize_event_read_access
  authorize_event_read_access_iff = elim (Bool-cases user.is_admin) [
    | inl admin ↦ (λ h. inl admin, λ h. rw admin (none, refl))
    | inr plain ↦
        let inner = by_team event.team_id refl in
        (
          λ (r, h). inr (inner.0 (r, rw plain at h)),
          λ h. elim h [
            | inl admin ↦ absurd (ground (arith, plain, admin))
            | inr k ↦ rw plain (inner.1 k)
          ],
        )
  ]

  -- Whoever may change an event reads it in full, and never through a share only.
  pub authorize_event_access-reads :
      (authorize_event_access event user db).0 ≡ ok tt
      → (authorize_event_read_access rt event user db).0 ≡ ok none
  unfolding authorize_event_access authorize_event_read_access
  authorize_event_access-reads h = elim (Bool-cases user.is_admin) [
    | inl admin ↦ rw admin refl
    | inr plain ↦ rw plain (by_access event.team_id (rw plain at h))
  ]
    where
      by_access :
          (o : Option ℕ)
          → (member_access user o db).0 ≡ ok tt
          → (read_access rt event user o db).0 ≡ ok none
      by_access none k = absurd (ground arith)
      by_access (some owner) k =
          let inside =
            (elem-teams_of owner user.id db).1 (member_access-IsMember owner user db k) in
          rw inside refl
