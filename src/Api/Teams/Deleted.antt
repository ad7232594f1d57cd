-- ===== src/Api/Teams/Deleted.antt =====
-- What the deletion of a team in backend/app/api/teams.py leaves behind.
use k8s_alert_manager.Prelude.{
  ℕ, String, ◌≡◌, refl, sym, ap, subst, ◌∙◌, ◌⊎◌, inl, inr, Bool, true, false, not, ◌||◌, Option,
  none, some, List, [], ◌∷◌, map, filter, find-passes, any, ==_iff, All, ◌==◌, str_eq, Bool-cases,
  if◌then◌else◌, arith,
}
use k8s_alert_manager.Models.Cluster.{Cluster, Team}
use k8s_alert_manager.Models.User.{User}
use k8s_alert_manager.Models.Db.{Db, get_team}
use k8s_alert_manager.Exec.{Exec, ok, http, pure, raise, ◌>>◌}
use k8s_alert_manager.Exec.Keeps.{Steps, Steps-pure, Steps-raise, Steps-if}
use k8s_alert_manager.Exec.Returns.{returned, ok-of_returned, ok-injective, bind_ok}
use k8s_alert_manager.Exec.Reads.{Same, Same-preorder, Reads-bind}
use k8s_alert_manager.Staging.{is_value}
use k8s_alert_manager.Api.{log, Answer, quietly}
use k8s_alert_manager.Api.Access.{require_admin, get_team_or_404, or_404}
use k8s_alert_manager.Api.Guarded.{get_team_or_404-Same}
use k8s_alert_manager.Api.Routes.{unless_is}
use k8s_alert_manager.Api.Teams.{
  Reply, reply, refused, ClusterRules, listed, is_rule_specific, list_clusters, after_delete,
  delete_rules, delete_all_rules, is_referred_to, drop_team, clean_and_drop, delete_team,
}

-- Deleted, or refused for a reason of the one rule.
abbrev pub is_settled : Reply (Unit {0}) → Bool
is_settled (reply u) = true
is_settled (refused e) = is_rule_specific e

abbrev pub IsSettled : ClusterRules → ℕ → Cluster → String → Type 0
IsSettled rules team_id cluster name =
    (str_eq name "" ≡ true) ⊎ (is_settled (rules.delete_rule cluster name team_id) ≡ true)

-- The cluster has listed the team's rules, and each that has a name is settled.
abbrev pub IsCleaned : ClusterRules → ℕ → Cluster → Type 0
IsCleaned rules team_id cluster =
    (names : List String) × (rules.list_rules cluster team_id ≡ reply names)
    × All (IsSettled rules team_id cluster) names

-- No row of any table names the team.
pub record IsGone (id : ℕ) (db : Db) : Type 0 where
  pub team : any (λ t. t.id == id) db.teams ≡ false
  pub memberships : any (λ m. m.team_id == id) db.memberships ≡ false
  pub ldap_mappings : any (λ m. m.team_id == id) db.ldap_mappings ≡ false
  pub shares : any (λ s. s.owner_team_id == id || s.target_team_id == id) db.shares ≡ false
  pub clusters : any (λ c. is_value id c.heartbeat_team_id) db.clusters ≡ false
  pub events : any (λ e. is_value id e.team_id) db.events ≡ false
  pub audit_logs : any (λ a. is_value id a.team_id) db.audit_logs ≡ false
  pub referring : is_referred_to id db ≡ false

any-filter-not :
    {A : Type 0} (p : A → Bool) (xs : List A) → any p (filter (λ x. not (p x)) xs) ≡ false
any-filter-not p [] = refl
any-filter-not p (x ∷ xs) = elim (Bool-cases (p x)) [
  | inl e ↦ rw e (any-filter-not p xs)
  | inr e ↦ rw (e, e) (any-filter-not p xs)
]

none-map :
    {A : Type 0} (p : A → Bool) (f : A → A) (xs : List A)
    → ((x : A) → p (f x) ≡ false)
    → any p (map f xs) ≡ false
none-map p f [] h = refl
none-map p f (x ∷ xs) h = ground (arith, h x, none-map p f xs h)

unless_is_lem : (id : ℕ) (o : Option ℕ) → is_value id (unless_is id o) ≡ false
unless_is_lem id none = refl
unless_is_lem id (some n) = elim (Bool-cases (n == id)) [
  | inl e ↦ rw e refl
  | inr e ↦ rw e (ground (arith, e))
]

drop_team-IsGone : (id : ℕ) (db : Db) → (drop_team id db).0 ≡ ok tt → IsGone id (drop_team id db).1
unfolding drop_team is_referred_to
drop_team-IsGone id db h = elim (Bool-cases (is_referred_to id db)) [
  | inl held ↦ absurd (ground (arith, rw held at h))
  | inr free ↦ rw free (record {
    team = any-filter-not (λ t. t.id == id) db.teams;
    memberships = any-filter-not (λ m. m.team_id == id) db.memberships;
    ldap_mappings = any-filter-not (λ m. m.team_id == id) db.ldap_mappings;
    shares = any-filter-not (λ s. s.owner_team_id == id || s.target_team_id == id) db.shares;
    clusters =
        none-map (λ c. is_value id c.heartbeat_team_id) _ db.clusters
          (λ c. unless_is_lem id c.heartbeat_team_id);
    events = none-map (λ e. is_value id e.team_id) _ db.events (λ e. unless_is_lem id e.team_id);
    audit_logs =
        none-map (λ a. is_value id a.team_id) _ db.audit_logs (λ a. unless_is_lem id a.team_id);
    referring = free;
  })
]

module _ (rules : ClusterRules) (now : ℕ) (user : User) (team : Team) where
  after_delete-settled :
      (name : String) (r : Reply (Unit {0})) (db : Db)
      → (after_delete rules now user team name r db).0 ≡ ok tt
      → is_settled r ≡ true
  unfolding after_delete
  after_delete-settled name (reply u) db h = refl
  after_delete-settled name (refused e) db h = elim (Bool-cases (is_rule_specific e)) [
    | inl specific ↦ specific
    | inr other ↦ absurd (ground (arith, rw other at h))
  ]

  delete_rules-IsSettled :
      (cluster : Cluster) (names : List String) (db : Db)
      → (delete_rules rules now user team cluster names db).0 ≡ ok tt
      → All (IsSettled rules team.id cluster) names
  unfolding delete_rules
  delete_rules-IsSettled cluster [] db h = tt
  delete_rules-IsSettled cluster (name ∷ names) db h =
      let first =
        if str_eq name ""
        then pure tt
        else after_delete rules now user team name (rules.delete_rule cluster name team.id) in
      let (u, done, rest) =
        bind_ok first (λ v. delete_rules rules now user team cluster names) db tt h in
      (
        by_name (str_eq name "") refl done,
        delete_rules-IsSettled cluster names (first db).1 (ap (λ r. r.0) (sym rest) ∙ h),
      )
    where
      by_name :
          (b : Bool)
          → str_eq name "" ≡ b
          → ((if b
                then pure tt
                else after_delete rules now user team name (rules.delete_rule cluster name team.id))
              db).0
            ≡ ok tt
          → IsSettled rules team.id cluster name
      by_name true e k = inl e
      by_name false e k =
          inr (after_delete-settled name (rules.delete_rule cluster name team.id) db k)

  listed-reply :
      (cluster : Cluster) (r : Reply (List String)) (db : Db) (first : Cluster × List String)
      → (listed cluster r db).0 ≡ ok first
      → (r ≡ reply first.1) × (cluster ≡ first.0)
  listed-reply cluster (reply names) db first h =
      let same = ok-injective (cluster, names) first h in
      (ap (λ f. reply f.1) same, ap (λ f. f.0) same)
  listed-reply cluster (refused e) db first h = absurd (ground (arith, h))

  clusters-IsCleaned :
      (cs : List Cluster) (found : List (Cluster × List String)) (db db1 : Db)
      → (list_clusters rules now user team cs db).0 ≡ ok found
      → (delete_all_rules rules now user team found db1).0 ≡ ok tt
      → All (IsCleaned rules team.id) cs
  unfolding delete_all_rules
  clusters-IsCleaned [] found db db1 h k = tt
  clusters-IsCleaned (c ∷ cs) found db db1 h k =
      let (first, ok_first, e1) = bind_ok (listed c (rules.list_rules c team.id)) _ db found h in
      let (others, ok_others, e2) =
        bind_ok (list_clusters rules now user team cs) _
          (listed c (rules.list_rules c team.id) db).1 found (ap (λ r. r.0) (sym e1) ∙ h) in
      let same = ok-injective (first ∷ others) found (ap (λ r. r.0) (sym (e1 ∙ e2)) ∙ h) in
      let all_done =
        subst (λ f. (delete_all_rules rules now user team f db1).0 ≡ ok tt) (sym same) k in
      let (u, done, rest) =
        bind_ok (delete_rules rules now user team first.0 first.1)
          (λ v. delete_all_rules rules now user team others) db1 tt all_done in
      let (answered, same_cluster) =
        listed-reply c (rules.list_rules c team.id) db first ok_first in
      (
        (
          first.1,
          answered,
          subst (λ x. All (IsSettled rules team.id x) first.1) (sym same_cluster)
              (delete_rules-IsSettled first.0 first.1 db1 done),
        ),
        clusters-IsCleaned cs others _ _ ok_others (ap (λ r. r.0) (sym rest) ∙ all_done),
      )

require_admin-Same : (user : User) → Steps Same (require_admin user)
unfolding require_admin
require_admin-Same user =
    Steps-if Same-preorder user.is_admin _ _ (λ on. Steps-pure Same-preorder user)
      (λ off. Steps-raise Same-preorder (http 403))

require_admin-admin :
    (user allowed : User) (db : Db) → (require_admin user db).0 ≡ ok allowed → user.is_admin ≡ true
unfolding require_admin
require_admin-admin user allowed db h = by_admin user.is_admin refl h
  where
    by_admin :
        (b : Bool)
        → user.is_admin ≡ b
        → ((if b then pure user else raise (http 403)) db).0 ≡ ok allowed
        → user.is_admin ≡ true
    by_admin true e k = e
    by_admin false e k = absurd (ground (arith, k))

team-found :
    (id : ℕ) (team : Team) (db : Db)
    → (get_team_or_404 id db).0 ≡ ok team
    → get_team db id ≡ some team
unfolding get_team_or_404
team-found id team db h = by_row (get_team db id) h
  where
    by_row : (o : Option Team) → (or_404 o db).0 ≡ ok team → o ≡ some team
    by_row none k = absurd (ground (arith, k))
    by_row (some t) k = ground (arith, k)

team-key : (id : ℕ) (team : Team) (db : Db) → get_team db id ≡ some team → team.id ≡ id
team-key id team db h = (==_iff team.id id).0 (find-passes (λ t. t.id == id) db.teams team h)

clean_and_drop-IsGone :
    (rules : ClusterRules) (now : ℕ) (user : User) (team : Team)
    (found : List (Cluster × List String)) (db : Db) (a : Answer (Unit {0}))
    → (clean_and_drop rules now user team found db).0 ≡ ok a
    → ((delete_all_rules rules now user team found db).0 ≡ ok tt)
      × IsGone team.id (clean_and_drop rules now user team found db).1
unfolding clean_and_drop log
clean_and_drop-IsGone rules now user team found db a h =
    let rest : Exec (Answer (Unit {0})) = (do
      log now (some user.id) (some team.id) "team.delete" "team" team.slug
      drop_team team.id
      pure (quietly tt)) in
    let (u, all_deleted, e) =
      bind_ok (delete_all_rules rules now user team found) (λ v. rest) db a h in
    let cleaned = (delete_all_rules rules now user team found db).1 in
    let logged = (log now (some user.id) (some team.id) "team.delete" "team" team.slug cleaned).1 in
    let (w, dropped, f) =
      bind_ok (drop_team team.id) (λ v. pure (quietly tt)) logged a (ap (λ r. r.0) (sym e) ∙ h) in
    (
      all_deleted,
      subst (IsGone team.id) (ap (λ r. r.1) (sym (e ∙ f)))
          (drop_team-IsGone team.id logged dropped),
    )

module _ (rules : ClusterRules) (now team_id : ℕ) (user : User) (db : Db) where
  -- When the deletion of a team is answered, the user is an admin and the team was there; each enabled
  -- cluster has listed the team's rules, and each rule with a name was deleted or refused for a reason of
  -- its own; and no row of a table of the model names the team any more.
  pub delete_team-IsGone :
      returned (delete_team rules now team_id user db).0 ≡ true
      → (user.is_admin ≡ true)
        × ((team : Team) × (get_team db team_id ≡ some team)
            × All (IsCleaned rules team.id) (filter (λ c. c.enabled) db.clusters))
        × IsGone team_id (delete_team rules now team_id user db).1
  unfolding delete_team
  delete_team-IsGone h =
      let (a, h0) = ok-of_returned (delete_team rules now team_id user db).0 h in
      let (allowed, may, e1) =
        Reads-bind (require_admin user) _ (require_admin-Same user) db a h0 in
      let h1 = ap (λ r. r.0) (sym e1) ∙ h0 in
      let (team, there, e2) =
        Reads-bind (get_team_or_404 team_id) _ (get_team_or_404-Same team_id) db a h1 in
      let h2 = ap (λ r. r.0) (sym e2) ∙ h1 in
      let (found, all_listed, e3) =
        bind_ok (λ d. list_clusters rules now user team (filter (λ c. c.enabled) d.clusters) d)
          (clean_and_drop rules now user team) db a h2 in
      let listed_db =
        (list_clusters rules now user team (filter (λ c. c.enabled) db.clusters) db).1 in
      let (all_deleted, gone) =
        clean_and_drop-IsGone rules now user team found listed_db a (ap (λ r. r.0) (sym e3) ∙ h2) in
      (
        require_admin-admin user allowed db may,
        (
          team,
          team-found team_id team db there,
          clusters-IsCleaned rules now user team (filter (λ c. c.enabled) db.clusters) found db
              listed_db all_listed all_deleted,
        ),
        subst (λ n. IsGone n (delete_team rules now team_id user db).1)
            (team-key team_id team db (team-found team_id team db there))
            (subst (IsGone team.id) (ap (λ r. r.1) (sym (e1 ∙ e2 ∙ e3))) gone),
      )
