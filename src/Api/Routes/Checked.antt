-- ===== src/Api/Routes/Checked.antt =====
-- What the checks of backend/app/api/routes.py let through as a rule is valid.
use k8s_alert_manager.Prelude.{
  ℕ, suc, String, ◌≡◌, refl, sym, ap, subst, ◌∙◌, Bool, true, false, none, List, [], ◌∷◌, All,
  All-map, is_empty, if◌then◌else◌, arith,
}
use k8s_alert_manager.Runtime.{Runtime}
use k8s_alert_manager.Models.Routing.{RoutingRule, Action, notify, suppress, is_suppress, is_notify}
use k8s_alert_manager.Models.Db.{Db}
use k8s_alert_manager.Exec.{ok}
use k8s_alert_manager.Exec.Keeps.{Steps, Steps-pure, Steps-bind}
use k8s_alert_manager.Exec.Returns.{ok-injective, Returns-pure, Returns-bind}
use k8s_alert_manager.Exec.Reads.{Same, Same-preorder, Reads-bind}
use k8s_alert_manager.Api.Routes.Checks.{
  MatcherInput, RouteWrite, or_none, every, is_valid_pattern, is_valid_matcher, is_positive,
  is_valid_escalation, validate_body, validate_clusters_exist, validate_template, unique,
  resolve_channels, resolve_escalation_channels,
}
use k8s_alert_manager.Api.Routes.Unchanged.{
  every-All, body-Same, clusters-Same, template-Same, channels-Same, escalations-Same,
}
use k8s_alert_manager.Api.Routes.{numbered, escalates_with, rule_of, checked_rule}
use k8s_alert_manager.Api.Routes.Valid.{
  IsOpen, IsValid, IsChecked, IsResolved, unique-nonempty, channels-IsResolved, escalations-IsOpen,
  body-IsChecked,
}

module _ (rt : Runtime) where
  numbered-patterns :
      (n : ℕ) (ms : List MatcherInput)
      → All (λ m. is_valid_matcher rt m ≡ true) ms
      → All (λ m. rt.compiles m.pattern ≡ true) (numbered n ms)
  numbered-patterns n [] h = tt
  numbered-patterns n (m ∷ ms) h = (
    unfold is_valid_matcher is_valid_pattern in ground (arith, h.0),
    numbered-patterns (suc n) ms h.1,
  )

  valid-compiles :
      (ps : List String)
      → every (is_valid_pattern rt) ps ≡ true
      → All (λ p. rt.compiles p ≡ true) ps
  valid-compiles ps h =
      All-map (λ p. is_valid_pattern rt p ≡ true) (λ p. rt.compiles p ≡ true) ps
        (λ p k. unfold is_valid_pattern in ground (arith, k)) (every-All (is_valid_pattern rt) ps h)

  suppresses_not : (action : Action) → action ≡ notify → is_suppress action ≡ false
  suppresses_not action e = unfold is_suppress in (rw e)

  resolved_silent :
      (body : RouteWrite) (channels : List ℕ)
      → (is_suppress body.action ≡ true → channels ≡ [])
      → body.action ≡ suppress
      → (channels ≡ []) × (escalates_with body ≡ false)
  resolved_silent body channels h e =
      (h (unfold is_suppress in (rw e)), unfold escalates_with is_notify in (rw e))

  escalation_needs :
      (body : RouteWrite) (action : Action) (enabled : Bool)
      → is_valid_escalation (record body { action = action; escalation_enabled = enabled }) ≡ true
      → escalates_with (record body { action = action; escalation_enabled = enabled }) ≡ true
      → (is_positive body.escalation_after_minutes ≡ true)
        × (is_empty body.escalation_channel_ids ≡ false)
  unfolding is_valid_escalation escalates_with is_suppress is_notify
  escalation_needs body notify true checked on = (ground (arith, checked), ground (arith, checked))
  escalation_needs body notify false checked on = absurd (ground arith)
  escalation_needs body suppress true checked on = absurd (ground arith)
  escalation_needs body suppress false checked on = absurd (ground arith)
  escalation_needs body (Action.unknown name) enabled checked on = absurd (ground arith)

  timed :
      (body : RouteWrite) (escalations : List ℕ)
      → is_valid_escalation body ≡ true
      → unique (if escalates_with body then body.escalation_channel_ids else []) ≡ escalations
      → escalates_with body ≡ true
      → (is_positive (if escalates_with body then body.escalation_after_minutes else none) ≡ true)
        × (is_empty escalations ≡ false)
  timed body escalations checked same on =
      let (positive, given) =
        escalation_needs body body.action body.escalation_enabled checked on in
      (
        subst (λ b. is_positive (if b then body.escalation_after_minutes else none) ≡ true) (sym on)
            positive,
        ap is_empty (sym same)
            ∙ ap (λ b. is_empty (unique (if b then body.escalation_channel_ids else []))) on
            ∙ unique-nonempty body.escalation_channel_ids given,
      )

  rule_of-IsValid :
      (id team_id : ℕ) (body : RouteWrite) (db : Db) (channels escalations : List ℕ)
      → IsChecked rt body
      → IsResolved db team_id body.action channels
      → All (IsOpen db team_id) escalations
      → unique (if escalates_with body then body.escalation_channel_ids else []) ≡ escalations
      → IsValid rt db (rule_of id team_id body channels escalations)
  unfolding rule_of
  rule_of-IsValid id team_id body db channels escalations checked resolved open_ same = record {
    patterns =
        numbered-patterns 0 body.matchers (every-All (is_valid_matcher rt) body.matchers checked.2);
    included = valid-compiles (or_none body.namespaces_include) checked.0;
    excluded = valid-compiles (or_none body.namespaces_exclude) checked.1;
    own = resolved.0;
    open_ = open_;
    silent = λ quiet. resolved_silent body channels resolved.1 quiet;
    heard = λ loud. resolved.2 (suppresses_not body.action loud);
    timed = λ on. timed body escalations checked.3 same on;
  }

  pub checked_rule-IsValid :
      (now id team_id : ℕ) (body : RouteWrite) (db : Db) (rule : RoutingRule)
      → (checked_rule rt now id team_id body db).0 ≡ ok rule
      → IsValid rt db rule
  unfolding checked_rule
  checked_rule-IsValid now id team_id body db rule h =
      let (u, body_ok, e1) = Reads-bind (validate_body rt body) _ (body-Same rt body) db rule h in
      let (v, clusters_ok, e2) =
        Reads-bind (validate_clusters_exist body.clusters) _ (clusters-Same rt body.clusters) db
          rule (ap (λ r. r.0) (sym e1) ∙ h) in
      let (w, template_ok, e3) =
        Reads-bind (validate_template team_id body.template_id) _
          (template-Same rt team_id body.template_id) db rule (ap (λ r. r.0) (sym (e1 ∙ e2)) ∙ h) in
      let (channels, channels_ok, e4) =
        Reads-bind (resolve_channels team_id body.action body.channel_ids) _
          (channels-Same team_id body.action body.channel_ids) db rule
          (ap (λ r. r.0) (sym (e1 ∙ e2 ∙ e3)) ∙ h) in
      let ids = if escalates_with body then body.escalation_channel_ids else [] in
      let (escalations, escalations_ok, e5) =
        Reads-bind (resolve_escalation_channels team_id ids) _ (escalations-Same team_id ids) db
          rule (ap (λ r. r.0) (sym (e1 ∙ e2 ∙ e3 ∙ e4)) ∙ h) in
      let (open_, same) = escalations-IsOpen team_id ids escalations db escalations_ok in
      subst (IsValid rt db)
        (ok-injective (rule_of id team_id body channels escalations) rule
          (ap (λ r. r.0) (sym (e1 ∙ e2 ∙ e3 ∙ e4 ∙ e5)) ∙ h))
        (rule_of-IsValid id team_id body db channels escalations (body-IsChecked rt body db body_ok)
          (channels-IsResolved team_id body.action body.channel_ids channels db channels_ok) open_
          same)

  pub checked_rule-Same :
      (now id team_id : ℕ) (body : RouteWrite) → Steps Same (checked_rule rt now id team_id body)
  unfolding checked_rule
  checked_rule-Same now id team_id body =
      Steps-bind Same-preorder (validate_body rt body) _ (body-Same rt body) (λ u.
        Steps-bind Same-preorder (validate_clusters_exist body.clusters) _
          (clusters-Same rt body.clusters)
          (λ v.
            Steps-bind Same-preorder (validate_template team_id body.template_id) _
              (template-Same rt team_id body.template_id)
              (λ w.
                Steps-bind Same-preorder (resolve_channels team_id body.action body.channel_ids) _
                  (channels-Same team_id body.action body.channel_ids)
                  (λ channels.
                    Steps-bind Same-preorder (resolve_escalation_channels team_id _) _
                      (escalations-Same team_id _)
                      (λ escalations.
                        Steps-pure Same-preorder (rule_of id team_id body channels escalations))))))

  abbrev HasKeys : ℕ → ℕ → RoutingRule → Type 0
  HasKeys id team_id rule = (rule.id ≡ id) × (rule.team_id ≡ team_id)

  pub checked_rule-keys :
      (now id team_id : ℕ) (body : RouteWrite) (db : Db) (rule : RoutingRule)
      → (checked_rule rt now id team_id body db).0 ≡ ok rule
      → (rule.id ≡ id) × (rule.team_id ≡ team_id)
  unfolding checked_rule rule_of
  checked_rule-keys now id team_id body db rule h =
      (Returns-bind (HasKeys id team_id) (validate_body rt body) _ (λ u.
          Returns-bind (HasKeys id team_id) (validate_clusters_exist body.clusters) _ (λ v.
            Returns-bind (HasKeys id team_id) (validate_template team_id body.template_id) _ (λ w.
              Returns-bind (HasKeys id team_id)
                (resolve_channels team_id body.action body.channel_ids) _
                (λ channels.
                  Returns-bind (HasKeys id team_id) (resolve_escalation_channels team_id _) _
                    (λ escalations.
                      Returns-pure (HasKeys id team_id)
                        (rule_of id team_id body channels escalations) (refl, refl))))))).at
        db rule h
