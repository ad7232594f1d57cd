-- ===== src/Routing/Admits.antt =====
-- When a rule matches an event, said of the stored rule: `evaluate` of backend/app/services/routing.py.
use k8s_alert_manager.Prelude.{
  ℕ, String, ◌≡◌, refl, ◌↔◌, ◌⊎◌, inl, inr, true, false, not, Option, none, some, List, [], ◌∷◌,
  map, any, elem, str_elem, All, Any, ◌||◌, eq_iff, Bool-cases, arith, is_empty, filter_map,
}
use k8s_alert_manager.Runtime.{Runtime, re_compile}
use k8s_alert_manager.Models.Alert.{EventStatus, firing, resolved, AlertEvent}
use k8s_alert_manager.Models.Routing.{is_suppress, is_include, RoutingMatcher, RoutingRule}
use k8s_alert_manager.Routing.Compile.{compiled, compile_rule, or_empty, non_empty, lowered}
use k8s_alert_manager.Routing.Evaluate.{
  as_matchable, matcher_matches, passes_include, passes_exclude,
}

-- A stored list that is NULL or empty restricts nothing.
abbrev pub Restricts {ℓ} : {A : Type ℓ} → Option (List A) → (List A → Type 0) → Type 0
Restricts none P = Unit
Restricts (some []) P = Unit
Restricts (some (x ∷ xs)) P = P (x ∷ xs)

elem_iff : (n : ℕ) (xs : List ℕ) → (elem n xs ≡ true) ↔ Any (λ x. x ≡ n) xs
elem_iff n [] = (λ h. ground arith, λ h. absurd h)
elem_iff n (x ∷ xs) =
    (λ h. ground (arith, (elem_iff n xs).0), λ h. ground (arith, (elem_iff n xs).1))

module _ (rt : Runtime) where
  -- The event's severity is one of the names, up to case; an event without one counts as "none".
  abbrev pub NamesSeverity : AlertEvent → List String → Type 0
  NamesSeverity e names =
      Any (λ name. rt.lower name ≡ elim e.severity [ none ↦ "none" | some s ↦ rt.lower s ]) names

  lower-elem_iff :
      (s : String) (names : List String)
      → (str_elem s (map rt.lower names) ≡ true) ↔ Any (λ name. rt.lower name ≡ s) names
  lower-elem_iff s [] = (λ h. ground arith, λ h. absurd h)
  lower-elem_iff s (x ∷ xs) = (
    λ h. ground (arith, (lower-elem_iff s xs).0, eq_iff (rt.lower x) s),
    λ h. ground (arith, (lower-elem_iff s xs).1, eq_iff (rt.lower x) s),
  )

  -- Some pattern that compiles matches the whole namespace.
  abbrev pub HasNamespace : AlertEvent → List String → Type 0
  HasNamespace e patterns = elim e.namespace [
    | none ↦ ⊥
    | some ns ↦ Any (λ p. (rt.compiles p ≡ true) × (rt.fullmatch p ns ≡ true)) patterns
  ]

  abbrev pub AllBroken : List String → Type 0
  AllBroken patterns = All (λ p. rt.compiles p ≡ false) patterns

  patterns_any_iff :
      (ns : String) (ps : List String)
      → (any (λ p. rt.fullmatch p ns) (filter_map (re_compile rt) ps) ≡ true)
        ↔ Any (λ p. (rt.compiles p ≡ true) × (rt.fullmatch p ns ≡ true)) ps
  patterns_any_iff ns [] = (λ h. ground arith, λ h. absurd h)
  patterns_any_iff ns (p ∷ ps) = (
    λ h. ground (arith, (patterns_any_iff ns ps).0),
    λ h. ground (arith, (patterns_any_iff ns ps).1),
  )

  patterns_empty_iff :
      (ps : List String) → (is_empty (filter_map (re_compile rt) ps) ≡ true) ↔ AllBroken ps
  patterns_empty_iff [] = (λ h. tt, λ h. refl)
  patterns_empty_iff (p ∷ ps) = (
    λ h. ground (arith, (patterns_empty_iff ps).0),
    λ h. ground (arith, (patterns_empty_iff ps).1),
  )

  -- The conditions of the stored rule, in the words of its columns.
  pub record Admits (e : AlertEvent) (rule : RoutingRule) (ms : List RoutingMatcher)
      (trigger : EventStatus) : Type 0 where
    pub clusters : Restricts rule.clusters (λ ids. Any (λ n. n ≡ e.cluster_id) ids)
    pub enabled : rule.enabled ≡ true
    pub on_firing :
        is_suppress rule.action ≡ false → trigger ≡ firing → rule.notify_on_firing ≡ true
    pub on_resolved :
        is_suppress rule.action ≡ false → trigger ≡ resolved → rule.notify_on_resolved ≡ true
    pub severities : Restricts rule.severities (NamesSeverity e)
    pub namespaces_include :
        AllBroken (or_empty rule.namespaces_include)
        ⊎ HasNamespace e (or_empty rule.namespaces_include)
    pub namespaces_exclude : ¬ HasNamespace e (or_empty rule.namespaces_exclude)
    pub includes :
        All
          (λ m.
            is_include m.kind ≡ true
            → rt.compiles m.pattern ≡ true
            → matcher_matches rt (as_matchable e) (compiled rt m m.pattern) ≡ true)
          ms
    pub excludes :
        All
          (λ m.
            is_include m.kind ≡ false
            → rt.compiles m.pattern ≡ true
            → matcher_matches rt (as_matchable e) (compiled rt m m.pattern) ≡ false)
          ms

  pub clusters_iff :
      (n : ℕ) (o : Option (List ℕ))
      → (elim (non_empty o) [ none ↦ true | some ids ↦ elem n ids ] ≡ true)
        ↔ Restricts o (λ ids. Any (λ m. m ≡ n) ids)
  clusters_iff n none = (λ h. tt, λ h. refl)
  clusters_iff n (some []) = (λ h. tt, λ h. refl)
  clusters_iff n (some (x ∷ xs)) = elem_iff n (x ∷ xs)

  pub severities_iff :
      (e : AlertEvent) (o : Option (List String))
      → (elim (non_empty (lowered rt o)) [
        | none ↦ true
        | some names ↦ elim e.severity [
          | none ↦ str_elem "none" names
          | some severity ↦ str_elem (rt.lower severity) names
        ]
      ]
          ≡ true)
        ↔ Restricts o (NamesSeverity e)
  severities_iff e none = (λ h. tt, λ h. refl)
  severities_iff e (some []) = (λ h. tt, λ h. refl)
  severities_iff e (some (x ∷ xs)) = by_severity e.severity
    where
      by_severity :
          (s : Option String)
          → (elim s [
            | none ↦ str_elem "none" (map rt.lower (x ∷ xs))
            | some severity ↦ str_elem (rt.lower severity) (map rt.lower (x ∷ xs))
          ]
              ≡ true)
            ↔ Any (λ name. rt.lower name ≡ elim s [ none ↦ "none" | some t ↦ rt.lower t ]) (x ∷ xs)
      by_severity none = lower-elem_iff "none" (x ∷ xs)
      by_severity (some t) = lower-elem_iff (rt.lower t) (x ∷ xs)

  pub include_iff :
      (e : AlertEvent) (rule : RoutingRule) (ms : List RoutingMatcher)
      → (passes_include rt e (compile_rule rt rule ms) ≡ true) ↔ (
          AllBroken (or_empty rule.namespaces_include)
          ⊎ HasNamespace e (or_empty rule.namespaces_include))
  unfolding compile_rule
  include_iff e rule ms = by_namespace e.namespace (or_empty rule.namespaces_include)
    where
      by_namespace :
          (o : Option String) (ps : List String)
          → ((is_empty (filter_map (re_compile rt) ps) || elim o [
            | none ↦ false
            | some ns ↦ any (λ p. rt.fullmatch p ns) (filter_map (re_compile rt) ps)
          ])
              ≡ true)
            ↔ (AllBroken ps ⊎ elim o [
              | none ↦ ⊥
              | some ns ↦ Any (λ p. (rt.compiles p ≡ true) × (rt.fullmatch p ns ≡ true)) ps
            ])
      by_namespace none ps = (
        λ h. inl ((patterns_empty_iff ps).0 (ground arith)),
        λ h. elim h [ inl b ↦ ground (arith, (patterns_empty_iff ps).1 b) | inr b ↦ absurd b ],
      )
      by_namespace (some ns) ps = (
        λ h. elim (Bool-cases (is_empty (filter_map (re_compile rt) ps))) [
          | inl b ↦ inl ((patterns_empty_iff ps).0 b)
          | inr b ↦ inr ((patterns_any_iff ns ps).0 (ground arith))
        ],
        λ h. elim h [
          | inl b ↦ ground (arith, (patterns_empty_iff ps).1 b)
          | inr b ↦ ground (arith, (patterns_any_iff ns ps).1 b)
        ],
      )

  pub exclude_iff :
      (e : AlertEvent) (rule : RoutingRule) (ms : List RoutingMatcher)
      → (passes_exclude rt e (compile_rule rt rule ms) ≡ true)
        ↔ (¬ HasNamespace e (or_empty rule.namespaces_exclude))
  unfolding compile_rule
  exclude_iff e rule ms = by_namespace e.namespace (or_empty rule.namespaces_exclude)
    where
      by_namespace :
          (o : Option String) (ps : List String)
          → (elim o [
            | none ↦ true
            | some ns ↦ not (any (λ p. rt.fullmatch p ns) (filter_map (re_compile rt) ps))
          ]
              ≡ true)
            ↔ (¬ (elim o [
              | none ↦ ⊥
              | some ns ↦ Any (λ p. (rt.compiles p ≡ true) × (rt.fullmatch p ns ≡ true)) ps
            ]))
      by_namespace none ps = (λ h b. b, λ h. refl)
      by_namespace (some ns) ps = (
        λ h b. ground (arith, (patterns_any_iff ns ps).1 b),
        λ h. elim (Bool-cases (any (λ p. rt.fullmatch p ns) (filter_map (re_compile rt) ps))) [
          | inl b ↦ absurd (h ((patterns_any_iff ns ps).0 b))
          | inr b ↦ ground arith
        ],
      )
