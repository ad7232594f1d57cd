-- ===== src/Api/Routes/Saved.antt =====
-- Which rules the requests of backend/app/api/routes.py save, and for whom.
use k8s_alert_manager.Prelude.{
  ℕ, ◌≡◌, refl, Bool, false, not, ◌&&◌, any, if◌then◌else◌, sym, ap, subst, ◌∙◌, true, Option, none,
  some, [], ◌∷◌, ◌++◌, update_where, ◌==◌, arith,
}
use k8s_alert_manager.Runtime.{Runtime}
use k8s_alert_manager.Models.Routing.{RoutingRule}
use k8s_alert_manager.Models.User.{User, owner}
use k8s_alert_manager.Models.Db.{Db, get_rule}
use k8s_alert_manager.Exec.{Exec, ok, integrity, raise, modify, ◌>>=◌}
use k8s_alert_manager.Exec.Keeps.{Steps}
use k8s_alert_manager.Exec.Returns.{returned, ok-of_returned}
use k8s_alert_manager.Exec.Reads.{Same, Reads-bind}
use k8s_alert_manager.Api.{Answer, log}
use k8s_alert_manager.Api.Access.{require_team_role, get_team_or_404, or_404}
use k8s_alert_manager.Api.Guarded.{or_404-Same, get_team_or_404-Same}
use k8s_alert_manager.Api.Owned.{IsOwner, role-Same, role-IsOwner}
use k8s_alert_manager.Api.Routes.Checks.{RouteWrite}
use k8s_alert_manager.Api.Routes.{
  has_name, add_rule, set_rule, checked_rule, save_new, create_route, save_changed, update_route,
  get_rule_or_404,
}
use k8s_alert_manager.Api.Routes.Valid.{IsValid}
use k8s_alert_manager.Api.Routes.Checked.{
  checked_rule-IsValid, checked_rule-Same, checked_rule-keys,
}

-- The requests that save a rule.
pub data RouteSave : Type 0 where
  create : (team_id : ℕ) → RouteSave
  update : (route_id : ℕ) → RouteSave

module _ (rt : Runtime) (now : ℕ) where
  abbrev pub saves : RouteSave → RouteWrite → User → Exec (Answer RoutingRule)
  saves (create team_id) body user = create_route rt now team_id body user
  saves (update route_id) body user = update_route rt now route_id body user

-- Another rule of the team with the name.
abbrev pub others_name : RoutingRule → RoutingRule → Bool
others_name rule r = not (r.id == rule.id) && has_name rule.team_id rule.name r

-- The rule, of a name that no other of the team has, is new in the team, or stands in place of the one that was found.
abbrev pub IsSaved : RouteSave → RoutingRule → Db → Db → Type 0
IsSaved (create team_id) rule db db' =
    (rule.id ≡ db.next_rule_id)
    × (rule.team_id ≡ team_id)
    × (any (has_name rule.team_id rule.name) db.rules ≡ false)
    × (db'.rules ≡ db.rules ++ rule ∷ [])
IsSaved (update route_id) rule db db' =
    (old : RoutingRule) × (get_rule db route_id ≡ some old)
    × (rule.id ≡ old.id)
    × (rule.team_id ≡ old.team_id)
    × (any (others_name rule) db.rules ≡ false)
    × (db'.rules ≡ update_where (λ r. r.id == rule.id) (λ r. rule) db.rules)

get_rule_or_404-Same : (id : ℕ) → Steps Same (get_rule_or_404 id)
unfolding get_rule_or_404
get_rule_or_404-Same id = record { at = λ db. (or_404-Same (get_rule db id)).at db }

rule-found :
    (id : ℕ) (rule : RoutingRule) (db : Db)
    → (get_rule_or_404 id db).0 ≡ ok rule
    → get_rule db id ≡ some rule
unfolding get_rule_or_404
rule-found id rule db h = by_row (get_rule db id) h
  where
    by_row : (o : Option RoutingRule) → (or_404 o db).0 ≡ ok rule → o ≡ some rule
    by_row none k = absurd (ground arith)
    by_row (some r) k = ground (arith, k)

-- A flush under a constraint, and what follows it.
guarded_flush :
    {A : Type 0} (taken : Bool) (f : Db → Db) (k : Unit {0} → Exec A) (db : Db) (a : A)
    → (((λ d. if taken then (raise integrity) d else (modify f) d) >>= k) db).0 ≡ ok a
    → (taken ≡ false)
      × (((λ d. if taken then (raise integrity) d else (modify f) d) >>= k) db ≡ k tt (f db))
guarded_flush true f k db a h = absurd (ground (arith, h))
guarded_flush false f k db a h = (refl, refl)

module _ (rt : Runtime) (now : ℕ) (body : RouteWrite) (user : User) (db : Db) where
  save_new_lem :
      (team_id : ℕ) (a : Answer RoutingRule)
      → (save_new rt now team_id body user db).0 ≡ ok a
      → (rule : RoutingRule) × IsValid rt db rule
        × (rule.id ≡ db.next_rule_id)
        × (rule.team_id ≡ team_id)
        × (any (has_name rule.team_id rule.name) db.rules ≡ false)
        × ((save_new rt now team_id body user db).1.rules ≡ db.rules ++ rule ∷ [])
  unfolding log save_new
  save_new_lem team_id a h =
      let (rule, ok_rule, e) =
        Reads-bind (checked_rule rt now db.next_rule_id team_id body) _
          (checked_rule-Same rt now db.next_rule_id team_id body) db a h in
      let (same_id, same_team) =
        checked_rule-keys rt now db.next_rule_id team_id body db rule ok_rule in
      let (free, f) =
        guarded_flush (any (has_name rule.team_id rule.name) db.rules) (add_rule rt now rule) _ db a
          (ap (λ r. r.0) (sym e) ∙ h) in
      (
        rule,
        checked_rule-IsValid rt now db.next_rule_id team_id body db rule ok_rule,
        same_id,
        same_team,
        free,
        ap (λ r. r.1.rules) (e ∙ f),
      )

  save_changed_lem :
      (old : RoutingRule) (a : Answer RoutingRule)
      → (save_changed rt now body user old db).0 ≡ ok a
      → (rule : RoutingRule) × IsValid rt db rule
        × (rule.id ≡ old.id)
        × (rule.team_id ≡ old.team_id)
        × (any (others_name rule) db.rules ≡ false)
        × ((save_changed rt now body user old db).1.rules
            ≡ update_where (λ r. r.id == rule.id) (λ r. rule) db.rules)
  unfolding log save_changed
  save_changed_lem old a h =
      let (rule, ok_rule, e) =
        Reads-bind (checked_rule rt now old.id old.team_id body) _
          (checked_rule-Same rt now old.id old.team_id body) db a h in
      let (same_id, same_team) = checked_rule-keys rt now old.id old.team_id body db rule ok_rule in
      let (free, f) =
        guarded_flush (any (others_name rule) db.rules) (set_rule rt now rule) _ db a
          (ap (λ r. r.0) (sym e) ∙ h) in
      (
        rule,
        checked_rule-IsValid rt now old.id old.team_id body db rule ok_rule,
        same_id,
        same_team,
        free,
        ap (λ r. r.1.rules) (e ∙ f),
      )

  -- When a request to create or to change a rule is answered, one rule is saved, new in the team or in place
  -- of the one that was found, under a name that no other rule of the team has, by an admin or an owner
  -- of its team. Its patterns compile; its channels are not deleted and the team's own, and its escalation channels those or open to other teams; a rule that
  -- suppresses has no channels and does not escalate, one that notifies has a channel, and one that
  -- escalates has a channel to escalate to and at least a minute.
  pub saves-IsValid :
      (c : RouteSave)
      → returned (saves rt now c body user db).0 ≡ true
      → (rule : RoutingRule) × IsValid rt db rule
        × IsOwner rule.team_id user db
        × IsSaved c rule db (saves rt now c body user db).1
  unfolding create_route update_route
  saves-IsValid (create team_id) h =
      let (a, h0) = ok-of_returned (create_route rt now team_id body user db).0 h in
      let (allowed, may, e1) =
        Reads-bind (require_team_role owner team_id user) _ (role-Same owner team_id user) db a
          h0 in
      let (team, there, e2) =
        Reads-bind (get_team_or_404 team_id) _ (get_team_or_404-Same team_id) db a
          (ap (λ r. r.0) (sym e1) ∙ h0) in
      let (rule, valid, same_id, same_team, free, added) =
        save_new_lem team_id a (ap (λ r. r.0) (sym (e1 ∙ e2)) ∙ h0) in
      (
        rule,
        valid,
        subst (λ t. IsOwner t user db) (sym same_team) (role-IsOwner team_id user allowed db may),
        (same_id, same_team, free, ap (λ r. r.1.rules) (e1 ∙ e2) ∙ added),
      )
  saves-IsValid (update route_id) h =
      let (a, h0) = ok-of_returned (update_route rt now route_id body user db).0 h in
      let (old, found, e1) =
        Reads-bind (get_rule_or_404 route_id) _ (get_rule_or_404-Same route_id) db a h0 in
      let (allowed, may, e2) =
        Reads-bind (require_team_role owner old.team_id user) _ (role-Same owner old.team_id user)
          db a (ap (λ r. r.0) (sym e1) ∙ h0) in
      let (rule, valid, same_id, same_team, free, changed) =
        save_changed_lem old a (ap (λ r. r.0) (sym (e1 ∙ e2)) ∙ h0) in
      (
        rule,
        valid,
        subst (λ t. IsOwner t user db) (sym same_team)
            (role-IsOwner old.team_id user allowed db may),
        (
          old,
          rule-found route_id old db found,
          same_id,
          same_team,
          free,
          ap (λ r. r.1.rules) (e1 ∙ e2) ∙ changed,
        ),
      )
