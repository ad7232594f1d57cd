-- ===== src/Sharing.antt =====
-- backend/app/services/sharing.py, with `build_transient_matchers` of
-- backend/app/services/routing.py.
pub mod Laws
pub mod Scope
use k8s_alert_manager.Prelude.{
  ℕ, zero, suc, ◌+◌, Bool, true, false, not, ◌||◌, Option, none, some, List, [], ◌∷◌, length, any,
  ltb, filter, map, ◌==◌, if◌then◌else◌,
}
use k8s_alert_manager.Runtime.{Runtime}
use k8s_alert_manager.Models.Routing.{MatcherKind, Target, RoutingMatcher}
use k8s_alert_manager.Models.Share.{MatcherDict, AlertShare}
use k8s_alert_manager.Models.Db.{Db}
use k8s_alert_manager.Routing.Compile.{CompiledMatcher, compile_matchers}
use k8s_alert_manager.Routing.Evaluate.{Matchable, matcher_matches}

-- One dict of the list; `none` where kind, target or pattern is missing.
unfoldable pub transient_matcher : ℕ → MatcherDict → Option RoutingMatcher
transient_matcher position d = elim d.kind [
  | none ↦ none
  | some kind ↦ elim d.target [
    | none ↦ none
    | some target ↦ elim d.pattern [
      | none ↦ none
      | some pattern ↦ some (record {
        kind = kind;
        target = target;
        key = d.key;
        pattern = pattern;
        position = position;
      })
    ]
  ]
]

-- The loop over enumerate(matchers), from a position on.
unfoldable pub transient_from : ℕ → List MatcherDict → List RoutingMatcher
unfolding transient_matcher
transient_from position [] = []
transient_from position (d ∷ ds) =
    let rest = transient_from (suc position) ds in
    elim (transient_matcher position d) [ none ↦ rest | some m ↦ m ∷ rest ]

unfoldable pub build_transient_matchers : List MatcherDict → List RoutingMatcher
unfolding transient_from
build_transient_matchers ds = transient_from 0 ds

pub record CompiledShareScope : Type 0 where
  pub include_matchers : List CompiledMatcher
  pub exclude_matchers : List CompiledMatcher
  pub always_denies : Bool

module _ (rt : Runtime) where
  abbrev pub scope_of : List MatcherDict → CompiledShareScope
  scope_of ds =
      let (inc, exc) = compile_matchers rt (build_transient_matchers ds) in
      record {
        include_matchers = inc;
        exclude_matchers = exc;
        always_denies = ltb (length inc + length exc) (length ds);
      }

  -- `if not share.matchers` is the first two clauses.
  abbrev pub compile_scope : Option (List MatcherDict) → CompiledShareScope
  compile_scope none = record {
    include_matchers = [];
    exclude_matchers = [];
    always_denies = false;
  }
  compile_scope (some []) = record {
    include_matchers = [];
    exclude_matchers = [];
    always_denies = false;
  }
  compile_scope (some (d ∷ ds)) = scope_of (d ∷ ds)

  unfoldable pub compile_share_scope : AlertShare → CompiledShareScope
  unfolding build_transient_matchers
  compile_share_scope share = compile_scope share.matchers

  unfoldable pub scope_matches : CompiledShareScope → Matchable → Bool
  scope_matches scope alert =
      if scope.always_denies
      then false
      else if any (λ m. not (matcher_matches rt alert m)) scope.include_matchers
      then false
      else not (any (λ m. matcher_matches rt alert m) scope.exclude_matchers)

  unfoldable pub share_matches : AlertShare → Matchable → Bool
  unfolding compile_share_scope scope_matches
  share_matches share alert = scope_matches (compile_share_scope share) alert

-- The pairs (owner_team_id, share) of the shares that target a team.
unfoldable pub shared_source_team_ids : Db → ℕ → List (ℕ × AlertShare)
shared_source_team_ids db viewer_team_id =
    map (λ s. (s.owner_team_id, s)) (filter (λ s. s.target_team_id == viewer_team_id) db.shares)
