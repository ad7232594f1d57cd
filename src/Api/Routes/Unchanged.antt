-- ===== src/Api/Routes/Unchanged.antt =====
-- The checks of backend/app/api/routes.py only read the database.
use k8s_alert_manager.Prelude.{
  ℕ, ◌≡◌, refl, Bool, true, false, not, Option, none, some, List, [], ◌∷◌, All, is_empty, arith,
}
use k8s_alert_manager.Runtime.{Runtime}
use k8s_alert_manager.Models.Routing.{Action, is_suppress}
use k8s_alert_manager.Models.Db.{Db}
use k8s_alert_manager.Exec.{Exec, ok, http, ◌>>=◌}
use k8s_alert_manager.Exec.Keeps.{Steps, Steps-pure, Steps-raise, Steps-bind, Steps-if}
use k8s_alert_manager.Exec.Reads.{Same, Same-preorder}
use k8s_alert_manager.Api.Routes.Checks.{
  RouteWrite, or_none, every, demand, is_valid_pattern, is_valid_matcher, are_valid_severities,
  validate_body, validate_clusters_exist, validate_template, live_channel, unique, is_own,
  resolve_channels, may_escalate_to, resolve_escalation_channels,
}

pub demand-ok :
    {A : Type 0} (b : Bool) (k : Unit {0} → Exec A) (db : Db) (a : A)
    → ((demand b >>= k) db).0 ≡ ok a
    → (b ≡ true) × ((demand b >>= k) db ≡ k tt db)
demand-ok true k db a h = (refl, refl)
demand-ok false k db a h = absurd (ground arith)

pub demand-Same : (b : Bool) → Steps Same (demand b)
demand-Same true = Steps-pure Same-preorder tt
demand-Same false = Steps-raise Same-preorder (http 422)

pub every-All :
    {A : Type 0} (p : A → Bool) (xs : List A) → every p xs ≡ true → All (λ x. p x ≡ true) xs
every-All p [] h = tt
every-All p (x ∷ xs) h = (ground (arith, h), every-All p xs (ground (arith, h)))

module _ (rt : Runtime) where
  pub body-Same : (body : RouteWrite) → Steps Same (validate_body rt body)
  unfolding validate_body
  body-Same body =
      Steps-bind Same-preorder (demand (are_valid_severities rt body.severities)) _ (demand-Same _)
        (λ _.
          Steps-bind Same-preorder
            (demand (every (is_valid_pattern rt) (or_none body.namespaces_include))) _
            (demand-Same _)
            (λ _.
              Steps-bind Same-preorder
                (demand (every (is_valid_pattern rt) (or_none body.namespaces_exclude))) _
                (demand-Same _)
                (λ _.
                  Steps-bind Same-preorder (demand (every (is_valid_matcher rt) body.matchers)) _
                    (demand-Same _) (λ _. demand-Same _))))

  pub clusters-Same : (ids : Option (List ℕ)) → Steps Same (validate_clusters_exist ids)
  unfolding validate_clusters_exist
  clusters-Same ids = record { at = λ db. (demand-Same _).at db }

  pub template-Same : (team_id : ℕ) (o : Option ℕ) → Steps Same (validate_template team_id o)
  unfolding validate_template
  template-Same team_id none = Steps-pure Same-preorder tt
  template-Same team_id (some id) = record { at = λ db. (demand-Same _).at db }

pub channels-Same :
    (team_id : ℕ) (action : Action) (ids : List ℕ)
    → Steps Same (resolve_channels team_id action ids)
unfolding resolve_channels
channels-Same team_id action ids =
    Steps-if Same-preorder (is_suppress action) _ _
      (λ on.
        Steps-bind Same-preorder (demand (is_empty ids)) _ (demand-Same _)
          (λ u. Steps-pure Same-preorder []))
      (λ off. Steps-bind Same-preorder (demand (not (is_empty ids))) _ (demand-Same _) (λ u.
        Steps-bind Same-preorder
          (λ db. demand (every (λ id. is_own team_id (live_channel db id)) (unique ids)) db) _
          (record { at = λ db. (demand-Same _).at db })
          (λ v. Steps-pure Same-preorder (unique ids))))

pub escalations-Same :
    (team_id : ℕ) (ids : List ℕ) → Steps Same (resolve_escalation_channels team_id ids)
unfolding resolve_escalation_channels
escalations-Same team_id ids =
    Steps-bind Same-preorder
      (λ db. demand (every (λ id. may_escalate_to team_id (live_channel db id)) (unique ids)) db) _
      (record { at = λ db. (demand-Same _).at db }) (λ v. Steps-pure Same-preorder (unique ids))
