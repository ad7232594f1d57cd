-- ===== src/Accounts/Synced.antt =====
-- What the memberships of a user are after `_sync_memberships` of backend/app/services/auth_sync.py.
use k8s_alert_manager.Prelude.{
  ℕ, String, All-map, ◌≡◌, refl, ◌∙◌, inl, inr, Bool, true, false, not, ◌&&◌, List, [], ◌∷◌, ◌++◌,
  map, filter, any, elem, update_where, All, All-filter, ◌==◌, ==_refl, ==_iff, Bool-cases, arith,
}
use k8s_alert_manager.Runtime.{Runtime}
use k8s_alert_manager.Models.User.{TeamMembership, TeamLdapMapping, ldap, is_ldap}
use k8s_alert_manager.Models.Db.{Db}
use k8s_alert_manager.Api.Access.{is_membership}
use k8s_alert_manager.Accounts.{
  matched_mappings, with_role, is_ldap_row, sync_mapping, sync_mappings, is_withdrawn,
  sync_memberships,
}

-- The rows that the directory does not rule: of other users, and those given by hand.
abbrev pub is_other : ℕ → TeamMembership → Bool
is_other user_id m = not (m.user_id == user_id && is_ldap m.origin)

filter-snoc_out :
    (q : TeamMembership → Bool) (xs : List TeamMembership) (x : TeamMembership)
    → q x ≡ false
    → filter q (xs ++ x ∷ []) ≡ filter q xs
filter-snoc_out q [] x h = rw h refl
filter-snoc_out q (y ∷ ys) x h = ground (arith, filter-snoc_out q ys x h)

filter-update_out :
    (q p : TeamMembership → Bool) (f : TeamMembership → TeamMembership) (xs : List TeamMembership)
    → ((x : TeamMembership) → p x ≡ true → q x ≡ false)
    → ((x : TeamMembership) → p x ≡ true → q (f x) ≡ false)
    → filter q (update_where p f xs) ≡ filter q xs
filter-update_out q p f [] h k = refl
filter-update_out q p f (x ∷ xs) h k = elim (Bool-cases (p x)) [
  | inl on ↦ rw (on, h x on, k x on) (filter-update_out q p f xs h k)
  | inr off ↦ rw off (ground (arith, filter-update_out q p f xs h k))
]

filter-kept :
    (q r : TeamMembership → Bool) (xs : List TeamMembership)
    → ((x : TeamMembership) → q x ≡ true → r x ≡ true)
    → filter q (filter r xs) ≡ filter q xs
filter-kept q r [] h = refl
filter-kept q r (x ∷ xs) h = elim (Bool-cases (r x)) [
  | inl on ↦ rw on (ground (arith, filter-kept q r xs h))
  | inr off ↦ elim (Bool-cases (q x)) [
    | inl keep ↦ absurd (ground (arith, off, h x keep))
    | inr out ↦ rw (off, out) (filter-kept q r xs h)
  ]
]

any-snoc_old :
    (p : TeamMembership → Bool) (xs : List TeamMembership) (x : TeamMembership)
    → any p xs ≡ true
    → any p (xs ++ x ∷ []) ≡ true
any-snoc_old p [] x h = absurd (ground arith)
any-snoc_old p (y ∷ ys) x h = ground (arith, h, any-snoc_old p ys x)

any-snoc_new :
    (p : TeamMembership → Bool) (xs : List TeamMembership) (x : TeamMembership)
    → p x ≡ true
    → any p (xs ++ x ∷ []) ≡ true
any-snoc_new p [] x h = rw h refl
any-snoc_new p (y ∷ ys) x h = ground (arith, any-snoc_new p ys x h)

any-role :
    (p q : TeamMembership → Bool) (f : TeamMembership → TeamMembership) (xs : List TeamMembership)
    → ((x : TeamMembership) → p (f x) ≡ p x)
    → any p xs ≡ true
    → any p (update_where q f xs) ≡ true
any-role p q f [] k h = absurd (ground arith)
any-role p q f (x ∷ xs) k h = ground (arith, k x, any-role p q f xs k)

any-kept :
    (p r : TeamMembership → Bool) (xs : List TeamMembership)
    → ((x : TeamMembership) → p x ≡ true → r x ≡ true)
    → any p xs ≡ true
    → any p (filter r xs) ≡ true
any-kept p r [] k h = absurd (ground arith)
any-kept p r (x ∷ xs) k h = ground (arith, k x, any-kept p r xs k)

module _ (user_id : ℕ) where
  mapping-others :
      (m : TeamLdapMapping) (db : Db)
      → filter (is_other user_id) (sync_mapping user_id m db).memberships
        ≡ filter (is_other user_id) db.memberships
  unfolding is_ldap is_ldap_row
  mapping-others m db = elim (Bool-cases (any (is_membership m.team_id user_id) db.memberships)) [
    | inl old ↦ rw old (
        filter-update_out (is_other user_id) (is_ldap_row m.team_id user_id) (with_role m.role)
          db.memberships (λ x h. ground (arith, h)) (λ x h. ground (arith, h)))
    | inr new ↦ rw new (
        filter-snoc_out (is_other user_id) db.memberships
          (record {
            id = db.next_membership_id;
            team_id = m.team_id;
            user_id = user_id;
            role = m.role;
            origin = ldap;
          })
          (ground arith))
  ]

  mappings-others :
      (ms : List TeamLdapMapping) (db : Db)
      → filter (is_other user_id) (sync_mappings user_id ms db).memberships
        ≡ filter (is_other user_id) db.memberships
  unfolding sync_mappings
  mappings-others [] db = refl
  mappings-others (m ∷ ms) db = mappings-others ms (sync_mapping user_id m db) ∙ mapping-others m db

  mapping-keeps :
      (t : ℕ) (m : TeamLdapMapping) (db : Db)
      → any (is_membership t user_id) db.memberships ≡ true
      → any (is_membership t user_id) (sync_mapping user_id m db).memberships ≡ true
  mapping-keeps t m db h =
      elim (Bool-cases (any (is_membership m.team_id user_id) db.memberships)) [
        | inl old ↦ rw old (
            any-role (is_membership t user_id) (is_ldap_row m.team_id user_id) (with_role m.role)
              db.memberships (λ x. refl) h)
        | inr new ↦ rw new (any-snoc_old (is_membership t user_id) db.memberships _ h)
      ]

  mappings-keep :
      (t : ℕ) (ms : List TeamLdapMapping) (db : Db)
      → any (is_membership t user_id) db.memberships ≡ true
      → any (is_membership t user_id) (sync_mappings user_id ms db).memberships ≡ true
  unfolding sync_mappings
  mappings-keep t [] db h = h
  mappings-keep t (m ∷ ms) db h =
      mappings-keep t ms (sync_mapping user_id m db) (mapping-keeps t m db h)

  mapping-gives :
      (m : TeamLdapMapping) (db : Db)
      → any (is_membership m.team_id user_id) (sync_mapping user_id m db).memberships ≡ true
  mapping-gives m db = elim (Bool-cases (any (is_membership m.team_id user_id) db.memberships)) [
    | inl old ↦ rw old (
        any-role (is_membership m.team_id user_id) (is_ldap_row m.team_id user_id)
          (with_role m.role) db.memberships (λ x. refl) old)
    | inr new ↦
        rw new (any-snoc_new (is_membership m.team_id user_id) db.memberships _ (ground arith))
  ]

  mappings-give :
      (ms : List TeamLdapMapping) (db : Db)
      → All
          (λ m.
            any (is_membership m.team_id user_id) (sync_mappings user_id ms db).memberships ≡ true)
          ms
  unfolding sync_mappings
  mappings-give [] db = tt
  mappings-give (m ∷ ms) db = (
    mappings-keep m.team_id ms (sync_mapping user_id m db) (mapping-gives m db),
    mappings-give ms (sync_mapping user_id m db),
  )

-- The memberships of a user agree with the mappings of the directory groups.
pub record IsSynced (user_id : ℕ) (matched : List TeamLdapMapping) (db db' : Db) : Type 0 where
  -- A row from the directory is for a team that a mapping gives.
  pub justified :
      All
        (λ m.
          m.user_id ≡ user_id
          → is_ldap m.origin ≡ true
          → elem m.team_id (map (λ g. g.team_id) matched) ≡ true)
        db'.memberships
  -- Each such team has a row of the user.
  pub granted : All (λ g. any (is_membership g.team_id user_id) db'.memberships ≡ true) matched
  -- Rows given by hand and those of other users are as they were.
  pub untouched :
      filter (is_other user_id) db'.memberships ≡ filter (is_other user_id) db.memberships

elem-own :
    (gs : List TeamLdapMapping) → All (λ g. elem g.team_id (map (λ g. g.team_id) gs) ≡ true) gs
elem-own [] = tt
elem-own (g ∷ gs) =
    (ground (arith, ==_refl g.team_id), All-map _ _ gs (λ x k. ground (arith, k)) (elem-own gs))

-- A row for a team that a mapping gives is not stale.
kept_rows :
    (user_id : ℕ) (teams : List ℕ) (rows : List TeamMembership) (gs : List TeamLdapMapping)
    → All (λ g. elem g.team_id teams ≡ true) gs
    → All (λ g. any (is_membership g.team_id user_id) rows ≡ true) gs
    → All
        (λ g.
          any
            (is_membership g.team_id user_id)
            (filter (λ m. not (is_withdrawn user_id teams m)) rows)
          ≡ true)
        gs
kept_rows user_id teams rows [] own have = tt
kept_rows user_id teams rows (g ∷ gs) own have = (
  any-kept (is_membership g.team_id user_id) (λ m. not (is_withdrawn user_id teams m)) rows
      (λ m k. given m k own.0) have.0,
  kept_rows user_id teams rows gs own.1 have.1,
)
  where
    given :
        (m : TeamMembership)
        → is_membership g.team_id user_id m ≡ true
        → elem g.team_id teams ≡ true
        → not (is_withdrawn user_id teams m) ≡ true
    given m k own =
        let same = (==_iff m.team_id g.team_id).0 (ground (arith, k)) in
        let there : elem m.team_id teams ≡ true = rw same own in
        unfold is_withdrawn in ground (arith, there)

-- After a login the user's memberships from the directory are for teams that a mapping of the user's
-- groups gives, each such team has a row of the user, and the rows given by hand and those of other
-- users are what they were, in their order.
pub sync_memberships-IsSynced :
    (rt : Runtime) (now user_id : ℕ) (group_dns : List String) (db : Db)
    → IsSynced user_id
        (matched_mappings rt group_dns db.ldap_mappings)
        db
        (sync_memberships rt now user_id group_dns db)
unfolding sync_memberships
sync_memberships-IsSynced rt now user_id group_dns db =
    let matched = matched_mappings rt group_dns db.ldap_mappings in
    let teams = map (λ g. g.team_id) matched in
    let synced = (sync_mappings user_id matched db).memberships in
    record {
      justified =
          All-map _ _ (filter (λ m. not (is_withdrawn user_id teams m)) synced)
            (λ m k same from. fresh m teams k same from)
            (All-filter (λ m. not (is_withdrawn user_id teams m)) synced);
      granted =
          kept_rows user_id teams synced matched (elem-own matched)
            (mappings-give user_id matched db);
      untouched =
          filter-kept (is_other user_id) (λ m. not (is_withdrawn user_id teams m)) synced
            (λ m k. unfold is_withdrawn in ground (arith, k))
          ∙ mappings-others user_id matched db;
    }
  where
    fresh :
        (m : TeamMembership) (teams : List ℕ)
        → not (is_withdrawn user_id teams m) ≡ true
        → m.user_id ≡ user_id
        → is_ldap m.origin ≡ true
        → elem m.team_id teams ≡ true
    fresh m teams k same from = unfold is_withdrawn in ground (arith, k, same, from)
