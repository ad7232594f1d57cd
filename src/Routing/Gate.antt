-- ===== src/Routing/Gate.antt =====
-- What the trigger and the blocking matcher mean: `evaluate_compiled` of
-- backend/app/services/routing.py.
use k8s_alert_manager.Prelude.{
  ◌≡◌, inl, inr, Bool, true, false, Option, some, List, [], ◌∷◌, ◌++◌, All, find, Bool-cases, arith,
}
use k8s_alert_manager.Runtime.{Runtime}
use k8s_alert_manager.Models.Alert.{EventStatus, AlertEvent}
use k8s_alert_manager.Models.Routing.{is_suppress, RoutingMatcher, RoutingRule}
use k8s_alert_manager.Routing.Compile.{CompiledMatcher, CompiledRule, compile_rule}
use k8s_alert_manager.Routing.Evaluate.{
  excluded, as_matchable, matcher_matches, evaluate_matchers, evaluate_compiled, evaluate,
}

-- A list split at the first element that passes a test.
pub record FirstAt {A : Type 0} (p : A → Bool) (xs : List A) (x : A) : Type 0 where
  pub before : List A
  pub after : List A
  pub split : xs ≡ before ++ x ∷ after
  pub passes : p x ≡ true
  pub none_before : All (λ y. p y ≡ false) before

find-FirstAt :
    {A : Type 0} (p : A → Bool) (xs : List A) (x : A) → find p xs ≡ some x → FirstAt p xs x
find-FirstAt p [] x h = cc
find-FirstAt p (y ∷ ys) x h = elim (Bool-cases (p y)) [
  | inl e ↦ record {
    before = [];
    after = ys;
    split = ground arith;
    passes = ground arith;
    none_before = tt;
  }
  | inr e ↦
      let rest = find-FirstAt p ys x (ground arith) in
      record {
        before = y ∷ rest.before;
        after = rest.after;
        split = cc rest.split;
        passes = rest.passes;
        none_before = (e, rest.none_before);
      }
]

module _ (rt : Runtime) (e : AlertEvent) where
  -- For a suppress rule the verdict is the same whatever the trigger, also when none is given.
  pub evaluate_suppress :
      (rule : RoutingRule) (ms : List RoutingMatcher) (s t : Option EventStatus)
      → is_suppress rule.action ≡ true
      → evaluate rt e rule ms s ≡ evaluate rt e rule ms t
  unfolding evaluate evaluate_compiled compile_rule
  evaluate_suppress rule ms s t h = ground arith

  first_excluding_lem :
      (c : CompiledRule) (trigger : Option EventStatus)
      → (evaluate_compiled rt e c trigger).kind ≡ excluded
      → (m : CompiledMatcher) × (find
            (λ x. matcher_matches rt (as_matchable e) x)
            c.exclude_matchers
          ≡ some m)
        × ((evaluate_compiled rt e c trigger).blocking_matcher_position ≡ some m.position)
  unfolding evaluate_compiled evaluate_matchers
  first_excluding_lem c trigger h = ground arith

  -- An `excluded` verdict carries the position of the first exclude matcher that matches the event.
  excluded-FirstAt :
      (c : CompiledRule) (trigger : Option EventStatus)
      → (evaluate_compiled rt e c trigger).kind ≡ excluded
      → (m : CompiledMatcher) × FirstAt
          (λ x. matcher_matches rt (as_matchable e) x)
          c.exclude_matchers
          m
        × ((evaluate_compiled rt e c trigger).blocking_matcher_position ≡ some m.position)
  excluded-FirstAt c trigger h =
      let (m, found, position) = first_excluding_lem c trigger h in
      (m, find-FirstAt _ c.exclude_matchers m found, position)
