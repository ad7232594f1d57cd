-- ===== src/Routing/Evaluate.antt =====
-- `matcher_matches`, `evaluate_compiled` and `evaluate` of backend/app/services/routing.py.
use k8s_alert_manager.Prelude.{
  ℕ, String, Bool, true, false, not, ◌&&◌, ◌||◌, Option, none, some, List, any, find, elem,
  str_elem, lookup, is_empty, if◌then◌else◌,
}
use k8s_alert_manager.Runtime.{Runtime}
use k8s_alert_manager.Models.Alert.{EventStatus, is_firing, is_resolved, Labels, AlertEvent}
use k8s_alert_manager.Models.Routing.{
  Target, alertname, label, annotation, is_suppress, RoutingMatcher, RoutingRule,
}
use k8s_alert_manager.Routing.Compile.{CompiledMatcher, CompiledRule, compile_rule}

pub data VerdictKind : Type 0 where
  matched cluster_filtered gated severity_filtered namespace_filtered not_included excluded :
      VerdictKind

pub record Verdict : Type 0 where
  pub kind : VerdictKind
  pub blocking_matcher_position : Option ℕ

unfoldable pub is_matched : VerdictKind → Bool
is_matched matched = true
is_matched _ = false

abbrev pub verdict : VerdictKind → Verdict
verdict kind = record { kind = kind; blocking_matcher_position = none }

abbrev pub blocked_by : VerdictKind → CompiledMatcher → Verdict
blocked_by kind m = record { kind = kind; blocking_matcher_position = some m.position }

-- The `Matchable` protocol: what a matcher reads of an event or of a live alert.
pub record Matchable : Type 0 where
  pub alertname : String
  pub labels : Labels
  pub annotations : Labels

abbrev pub as_matchable : AlertEvent → Matchable
as_matchable e = record { alertname = e.alertname; labels = e.labels; annotations = e.annotations }

value_at : Target → Option String → Matchable → Option String
value_at alertname key m = some m.alertname
value_at target none m = none
value_at label (some k) m = lookup k m.labels
value_at annotation (some k) m = lookup k m.annotations
value_at (Target.unknown t) (some k) m = none

unfoldable pub matcher_value : Matchable → CompiledMatcher → Option String
unfolding value_at
matcher_value m c = value_at c.target c.key m

module _ (rt : Runtime) where
  unfoldable pub matcher_matches : Matchable → CompiledMatcher → Bool
  unfolding matcher_value
  matcher_matches m c = elim (matcher_value m c) [
    | none ↦ false
    | some value ↦ rt.search c.regex value
  ]

  -- Check 0.
  abbrev pub passes_clusters : AlertEvent → CompiledRule → Bool
  passes_clusters e c = elim c.clusters [ none ↦ true | some ids ↦ elem e.cluster_id ids ]

  -- Check 1, behind `enabled`: the notify_on gate, which a suppress rule ignores.
  abbrev pub gate_blocks : EventStatus → CompiledRule → Bool
  gate_blocks trigger c =
      not (is_suppress c.action)
      && (is_firing trigger && not c.notify_on_firing
          || is_resolved trigger && not c.notify_on_resolved)

  -- Check 2.
  abbrev pub passes_severities : AlertEvent → CompiledRule → Bool
  passes_severities e c = elim c.severities [
    | none ↦ true
    | some names ↦ elim e.severity [
      | none ↦ str_elem "none" names
      | some severity ↦ str_elem (rt.lower severity) names
    ]
  ]

  -- Checks 3 and 4.
  abbrev pub passes_include : AlertEvent → CompiledRule → Bool
  passes_include e c = is_empty c.namespaces_include || elim e.namespace [
    | none ↦ false
    | some ns ↦ any (λ p. rt.fullmatch p ns) c.namespaces_include
  ]

  abbrev pub passes_exclude : AlertEvent → CompiledRule → Bool
  passes_exclude e c = elim e.namespace [
    | none ↦ true
    | some ns ↦ not (any (λ p. rt.fullmatch p ns) c.namespaces_exclude)
  ]

  -- Checks 5 and 6: the matcher at which a loop returns, if any.
  abbrev pub first_missing : AlertEvent → CompiledRule → Option CompiledMatcher
  first_missing e c = find (λ m. not (matcher_matches (as_matchable e) m)) c.include_matchers

  abbrev pub first_excluding : AlertEvent → CompiledRule → Option CompiledMatcher
  first_excluding e c = find (λ m. matcher_matches (as_matchable e) m) c.exclude_matchers

  unfoldable pub evaluate_matchers : AlertEvent → CompiledRule → Verdict
  evaluate_matchers e c = elim (first_missing e c) [
    | some m ↦ blocked_by not_included m
    | none ↦ elim (first_excluding e c) [ some m ↦ blocked_by excluded m | none ↦ verdict matched ]
  ]

  abbrev pub effective_trigger : Option EventStatus → AlertEvent → EventStatus
  effective_trigger none e = e.status
  effective_trigger (some trigger) e = trigger

  unfoldable pub evaluate_compiled : AlertEvent → CompiledRule → Option EventStatus → Verdict
  unfolding is_suppress is_firing is_resolved
  evaluate_compiled e c trigger =
      if not (passes_clusters e c)
      then verdict cluster_filtered
      else if not c.enabled
      then verdict gated
      else if gate_blocks (effective_trigger trigger e) c
      then verdict gated
      else if not (passes_severities e c)
      then verdict severity_filtered
      else if not (passes_include e c)
      then verdict namespace_filtered
      else if not (passes_exclude e c)
      then verdict namespace_filtered
      else evaluate_matchers e c

  unfoldable pub evaluate :
      AlertEvent → RoutingRule → List RoutingMatcher → Option EventStatus → Verdict
  evaluate e rule matchers trigger = evaluate_compiled e (compile_rule rt rule matchers) trigger

  -- evaluate(event, rule, rule.matchers, trigger=trigger).matched
  abbrev pub matches_rule : AlertEvent → EventStatus → RoutingRule → Bool
  matches_rule e trigger rule = is_matched (evaluate e rule rule.matchers (some trigger)).kind
