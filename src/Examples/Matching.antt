-- ===== src/Examples/Matching.antt =====
-- Rules and shares at concrete events: `evaluate` and `share_matches` of backend/app/services.
use k8s_alert_manager.Prelude.{◌≡◌, refl, ◌↔◌, true, some, [], ◌∷◌, All}
use k8s_alert_manager.Models.Alert.{firing}
use k8s_alert_manager.Routing.Compile.{compile_rule}
use k8s_alert_manager.Routing.Evaluate.{
  evaluate, evaluate_compiled, evaluate_matchers, is_matched, as_matchable, matcher_matches,
  matched,
}
use k8s_alert_manager.Routing.Admits.{Admits, Restricts}
use k8s_alert_manager.Routing.Matched.{evaluate-matched_iff}
use k8s_alert_manager.Sharing.{share_matches}
use k8s_alert_manager.Sharing.Laws.{Within}
use k8s_alert_manager.Sharing.Scope.{share_matches_iff}
use k8s_alert_manager.Examples.Samples.{runtime, event, matcher, rule, share}

sample_matches : (evaluate runtime event rule rule.matchers (some firing)).kind ≡ matched
unfolding evaluate evaluate_compiled compile_rule evaluate_matchers matcher_matches
sample_matches = refl

evaluate-matched_iff_example :
    (is_matched (evaluate runtime event rule (matcher ∷ []) (some firing)).kind ≡ true)
    ↔ Admits runtime event rule (matcher ∷ []) firing
evaluate-matched_iff_example = evaluate-matched_iff runtime event rule (matcher ∷ []) firing

share_matches_iff_example :
    (share_matches runtime share (as_matchable event) ≡ true)
    ↔ Restricts share.matchers (All (Within runtime (as_matchable event)))
share_matches_iff_example = share_matches_iff runtime (as_matchable event) share
