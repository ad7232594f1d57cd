-- ===== src/Routing/Matched.antt =====
-- A rule matches an event exactly when its stored conditions admit it.
use k8s_alert_manager.Prelude.{
  ◌≡◌, refl, ◌↔◌, true, false, none, some, List, All-map, find-none→All, All→find-none, arith,
}
use k8s_alert_manager.Runtime.{Runtime}
use k8s_alert_manager.Models.Alert.{
  EventStatus, firing, resolved, is_firing, is_resolved, AlertEvent,
}
use k8s_alert_manager.Models.Routing.{is_suppress, RoutingMatcher, RoutingRule}
use k8s_alert_manager.Routing.Compile.{CompiledRule, compile_matchers, compile_rule}
use k8s_alert_manager.Routing.Compiled.{includes-keep, includes_back, excludes-keep, excludes_back}
use k8s_alert_manager.Routing.Evaluate.{
  is_matched, as_matchable, matcher_matches, passes_clusters, gate_blocks, passes_severities,
  passes_include, passes_exclude, first_missing, first_excluding, evaluate_matchers,
  evaluate_compiled, evaluate,
}
use k8s_alert_manager.Routing.Admits.{
  Admits, clusters_iff, severities_iff, include_iff, exclude_iff,
}

module _ (rt : Runtime) where
  matchers_iff :
      (e : AlertEvent) (c : CompiledRule)
      → (is_matched (evaluate_matchers rt e c).kind ≡ true)
        ↔ ((first_missing rt e c ≡ none) × (first_excluding rt e c ≡ none))
  unfolding evaluate_matchers is_matched
  matchers_iff e c = (λ h. ground arith, λ h. ground arith)

  -- The seven checks, in one conjunction.
  record Passes (e : AlertEvent) (c : CompiledRule) (trigger : EventStatus) : Type 0 where
    clusters : passes_clusters rt e c ≡ true
    enabled : c.enabled ≡ true
    gate : gate_blocks rt trigger c ≡ false
    severities : passes_severities rt e c ≡ true
    namespaces_include : passes_include rt e c ≡ true
    namespaces_exclude : passes_exclude rt e c ≡ true
    includes : first_missing rt e c ≡ none
    excludes : first_excluding rt e c ≡ none

  Passes-of_matched :
      (e : AlertEvent) (c : CompiledRule) (trigger : EventStatus)
      → is_matched (evaluate_compiled rt e c (some trigger)).kind ≡ true
      → Passes e c trigger
  unfolding evaluate_compiled is_matched
  Passes-of_matched e c trigger h = ground (arith, (matchers_iff e c).0)

  matched-of_Passes :
      (e : AlertEvent) (c : CompiledRule) (trigger : EventStatus)
      → Passes e c trigger
      → is_matched (evaluate_compiled rt e c (some trigger)).kind ≡ true
  unfolding evaluate_compiled is_matched
  matched-of_Passes e c trigger h = ground (arith, (matchers_iff e c).1)

  gate_iff :
      (rule : RoutingRule) (ms : List RoutingMatcher) (trigger : EventStatus)
      → (gate_blocks rt trigger (compile_rule rt rule ms) ≡ false) ↔ (
          (is_suppress rule.action ≡ false → trigger ≡ firing → rule.notify_on_firing ≡ true)
          × (is_suppress rule.action ≡ false → trigger ≡ resolved → rule.notify_on_resolved ≡ true))
  unfolding compile_rule is_firing is_resolved
  gate_iff rule ms firing = (
    λ h. (λ s t. ground arith, λ s t. cc),
    λ (h, k). ground (arith, λ (s : is_suppress rule.action ≡ false). h s refl),
  )
  gate_iff rule ms resolved = (
    λ h. (λ s t. cc, λ s t. ground arith),
    λ (h, k). ground (arith, λ (s : is_suppress rule.action ≡ false). k s refl),
  )
  gate_iff rule ms (EventStatus.unknown u) = (λ h. (λ s t. cc, λ s t. cc), λ (h, k). ground arith)

  module _ (e : AlertEvent) (rule : RoutingRule) (ms : List RoutingMatcher)
      (trigger : EventStatus) where
    Admits-of_Passes : Passes e (compile_rule rt rule ms) trigger → Admits rt e rule ms trigger
    unfolding compile_rule
    Admits-of_Passes p = record {
      clusters = (clusters_iff rt e.cluster_id rule.clusters).0 p.clusters;
      enabled = p.enabled;
      on_firing = ((gate_iff rule ms trigger).0 p.gate).0;
      on_resolved = ((gate_iff rule ms trigger).0 p.gate).1;
      severities = (severities_iff rt e rule.severities).0 p.severities;
      namespaces_include = (include_iff rt e rule ms).0 p.namespaces_include;
      namespaces_exclude = (exclude_iff rt e rule ms).0 p.namespaces_exclude;
      includes =
          includes_back rt (λ m. matcher_matches rt (as_matchable e) m ≡ true) ms
            (All-map _ _ (compile_matchers rt ms).0 (λ m k. ground arith)
              (find-none→All _ (compile_matchers rt ms).0 p.includes));
      excludes =
          excludes_back rt (λ m. matcher_matches rt (as_matchable e) m ≡ false) ms
            (find-none→All _ (compile_matchers rt ms).1 p.excludes);
    }

    Passes-of_Admits : Admits rt e rule ms trigger → Passes e (compile_rule rt rule ms) trigger
    unfolding compile_rule
    Passes-of_Admits a = record {
      clusters = (clusters_iff rt e.cluster_id rule.clusters).1 a.clusters;
      enabled = a.enabled;
      gate = (gate_iff rule ms trigger).1 (a.on_firing, a.on_resolved);
      severities = (severities_iff rt e rule.severities).1 a.severities;
      namespaces_include = (include_iff rt e rule ms).1 a.namespaces_include;
      namespaces_exclude = (exclude_iff rt e rule ms).1 a.namespaces_exclude;
      includes = All→find-none _ (compile_matchers rt ms).0 (
          All-map _ _ (compile_matchers rt ms).0 (λ m k. ground arith)
            (includes-keep rt (λ m. matcher_matches rt (as_matchable e) m ≡ true) ms a.includes));
      excludes =
          All→find-none _ (compile_matchers rt ms).1
            (excludes-keep rt (λ m. matcher_matches rt (as_matchable e) m ≡ false) ms a.excludes);
    }

    -- A stored rule matches an event exactly when the rule's columns admit it: cluster, enabled, the
    -- notify_on flag of the trigger unless the rule suppresses, severity up to case, namespace
    -- filters, every include matcher and no exclude matcher, in any order of the matchers; a
    -- pattern that does not compile counts as absent.
    pub evaluate-matched_iff :
        (is_matched (evaluate rt e rule ms (some trigger)).kind ≡ true)
        ↔ Admits rt e rule ms trigger
    unfolding evaluate
    evaluate-matched_iff = (
      λ h. Admits-of_Passes (Passes-of_matched e (compile_rule rt rule ms) trigger h),
      λ a. matched-of_Passes e (compile_rule rt rule ms) trigger (Passes-of_Admits a),
    )
