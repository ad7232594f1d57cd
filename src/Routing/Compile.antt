-- ===== src/Routing/Compile.antt =====
-- `compile_matchers` and `compile_rule` of backend/app/services/routing.py.
use k8s_alert_manager.Prelude.{
  ℕ, String, Bool, Option, none, some, List, [], ◌∷◌, ◌++◌, map, filter_map, leb, if◌then◌else◌,
}
use k8s_alert_manager.Runtime.{Runtime, re_compile}
use k8s_alert_manager.Models.Routing.{
  MatcherKind, is_include, Target, RoutingMatcher, Action, RoutingRule,
}

pub record CompiledMatcher : Type 0 where
  pub position : ℕ
  pub kind : MatcherKind
  pub target : Target
  pub key : Option String
  pub regex : String

pub record CompiledRule : Type 0 where
  pub action : Action
  pub enabled : Bool
  pub notify_on_firing : Bool
  pub notify_on_resolved : Bool
  pub clusters : Option (List ℕ)
  pub severities : Option (List String)
  pub namespaces_include : List String
  pub namespaces_exclude : List String
  pub include_matchers : List CompiledMatcher
  pub exclude_matchers : List CompiledMatcher

-- sorted(matchers, key=lambda m: m.position), which is stable
unfoldable pub insert_by_position : RoutingMatcher → List RoutingMatcher → List RoutingMatcher
insert_by_position m [] = m ∷ []
insert_by_position m (x ∷ xs) =
    let later = insert_by_position m xs in
    if leb m.position x.position then m ∷ x ∷ xs else x ∷ later

unfoldable pub sort_by_position : List RoutingMatcher → List RoutingMatcher
unfolding insert_by_position
sort_by_position [] = []
sort_by_position (m ∷ ms) = insert_by_position m (sort_by_position ms)

-- The pair that the loop appends to: (include, exclude).
abbrev pub place :
    CompiledMatcher
    → List CompiledMatcher × List CompiledMatcher
    → List CompiledMatcher × List CompiledMatcher
place c (inc, exc) = if is_include c.kind then (inc ++ c ∷ [], exc) else (inc, exc ++ c ∷ [])

-- `if not patterns: return []`
abbrev pub or_empty {ℓ} : {A : Type ℓ} → Option (List A) → List A
or_empty none = []
or_empty (some xs) = xs

-- `frozenset(xs) if xs else None`
abbrev pub non_empty {ℓ} : {A : Type ℓ} → Option (List A) → Option (List A)
non_empty none = none
non_empty (some []) = none
non_empty (some (x ∷ xs)) = some (x ∷ xs)

module _ (rt : Runtime) where
  abbrev pub compiled : RoutingMatcher → String → CompiledMatcher
  compiled m regex = record {
    position = m.position;
    kind = m.kind;
    target = m.target;
    key = m.key;
    regex = regex;
  }

  -- One round of the loop: a pattern that does not compile is skipped.
  abbrev pub compile_step :
      List CompiledMatcher × List CompiledMatcher
      → RoutingMatcher
      → List CompiledMatcher × List CompiledMatcher
  compile_step acc m = elim (re_compile rt m.pattern) [
    | none ↦ acc
    | some regex ↦ place (compiled m regex) acc
  ]

  unfoldable pub compile_loop :
      List CompiledMatcher × List CompiledMatcher
      → List RoutingMatcher
      → List CompiledMatcher × List CompiledMatcher
  unfolding is_include
  compile_loop acc [] = acc
  compile_loop acc (m ∷ ms) = compile_loop (compile_step acc m) ms

  unfoldable pub compile_matchers :
      List RoutingMatcher → List CompiledMatcher × List CompiledMatcher
  unfolding compile_loop sort_by_position
  compile_matchers matchers = compile_loop ([], []) (sort_by_position matchers)

  abbrev pub lowered : Option (List String) → Option (List String)
  lowered none = none
  lowered (some names) = some (map rt.lower names)

  unfoldable pub compile_patterns : Option (List String) → List String
  compile_patterns patterns = filter_map (re_compile rt) (or_empty patterns)

  unfoldable pub compile_rule : RoutingRule → List RoutingMatcher → CompiledRule
  unfolding compile_matchers compile_patterns
  compile_rule rule matchers =
      let (inc, exc) = compile_matchers matchers in
      record {
        action = rule.action;
        enabled = rule.enabled;
        notify_on_firing = rule.notify_on_firing;
        notify_on_resolved = rule.notify_on_resolved;
        clusters = non_empty rule.clusters;
        severities = non_empty (lowered rule.severities);
        namespaces_include = compile_patterns rule.namespaces_include;
        namespaces_exclude = compile_patterns rule.namespaces_exclude;
        include_matchers = inc;
        exclude_matchers = exc;
      }
