-- ===== src/Sharing/Scope.antt =====
-- Which alerts a share lets through, and that a broken share lets none through.
use k8s_alert_manager.Prelude.{
  ◌≡◌, refl, ◌↔◌, inl, inr, true, false, not, Option, none, some, List, [], ◌∷◌, length, any, count,
  All, arith, Bool-cases,
}
use k8s_alert_manager.Runtime.{Runtime}
use k8s_alert_manager.Models.Routing.{is_include, RoutingMatcher}
use k8s_alert_manager.Models.Share.{MatcherDict, AlertShare}
use k8s_alert_manager.Routing.Compiled.{
  Kept, includes-keep, includes_back, excludes-keep, excludes_back,
}
use k8s_alert_manager.Routing.Evaluate.{Matchable, matcher_matches}
use k8s_alert_manager.Routing.Admits.{Restricts}
use k8s_alert_manager.Sharing.{
  build_transient_matchers, transient_from, CompiledShareScope, scope_of, compile_scope,
  scope_matches, compile_share_scope, share_matches,
}
use k8s_alert_manager.Sharing.Laws.{
  sizes-compile_matchers, usable, count-transient, count-le-length, Within, Within-usable, Hit,
  Within-of_Hits, Hits-of_Within, any_miss→All, All→any_miss, any_hit→All, All→any_hit,
}

module _ (rt : Runtime) where
  -- A stored list is not broken exactly when every dict of it is usable.
  pub denies_iff :
      (ds : List MatcherDict)
      → ((scope_of rt ds).always_denies ≡ false) ↔ (count (usable rt) ds ≡ length ds)
  unfolding build_transient_matchers
  denies_iff ds =
      let total = sizes-compile_matchers rt (transient_from 0 ds) in
      (
        λ h. ground (arith, total, count-transient rt 0 ds, count-le-length rt ds),
        λ h. ground (arith, total, count-transient rt 0 ds, count-le-length rt ds),
      )

module _ (rt : Runtime) (alert : Matchable) where
  abbrev Includes : RoutingMatcher → Type 0
  Includes = Kept rt true (λ m. matcher_matches rt alert m ≡ true)

  abbrev Excludes : RoutingMatcher → Type 0
  Excludes = Kept rt false (λ m. matcher_matches rt alert m ≡ false)

  Hits-of_sides :
      (ms : List RoutingMatcher) → All Includes ms → All Excludes ms → All (Hit rt alert) ms
  Hits-of_sides [] i x = tt
  Hits-of_sides (m ∷ ms) i x = (
    λ c. elim (Bool-cases (is_include m.kind)) [
      | inl e ↦ ground (arith, i.0 e c)
      | inr e ↦ ground (arith, x.0 e c)
    ],
    Hits-of_sides ms i.1 x.1,
  )

  sides-of_Hits :
      (ms : List RoutingMatcher) → All (Hit rt alert) ms → All Includes ms × All Excludes ms
  sides-of_Hits [] h = (tt, tt)
  sides-of_Hits (m ∷ ms) h =
      let (i, x) = sides-of_Hits ms h.1 in
      ((λ e c. ground (arith, h.0 c), i), (λ e c. ground (arith, h.0 c), x))

  each_usable :
      (ds : List MatcherDict) → All (Within rt alert) ds → count (usable rt) ds ≡ length ds
  each_usable [] w = refl
  each_usable (d ∷ ds) w = ground (arith, Within-usable rt alert d w.0, each_usable ds w.1)

  scope_iff :
      (s : CompiledShareScope)
      → (scope_matches rt s alert ≡ true) ↔ (
          (s.always_denies ≡ false)
          × (any (λ m. not (matcher_matches rt alert m)) s.include_matchers ≡ false)
          × (any (λ m. matcher_matches rt alert m) s.exclude_matchers ≡ false))
  unfolding scope_matches
  scope_iff s = (λ h. ground arith, λ h. ground arith)

  dicts_iff :
      (ds : List MatcherDict)
      → (scope_matches rt (scope_of rt ds) alert ≡ true) ↔ All (Within rt alert) ds
  unfolding build_transient_matchers
  dicts_iff ds =
      let ms = transient_from 0 ds in
      let scope = scope_of rt ds in
      (
        λ h.
            let (live, inc, exc) = (scope_iff scope).0 h in
            Within-of_Hits rt alert 0 ds ((denies_iff rt ds).0 live) (
              Hits-of_sides ms
                (includes_back rt _ ms (any_miss→All rt alert scope.include_matchers inc))
                (excludes_back rt _ ms (any_hit→All rt alert scope.exclude_matchers exc))),
        λ w.
            let (inc, exc) = sides-of_Hits ms (Hits-of_Within rt alert 0 ds w) in
            (scope_iff scope).1 (
              (denies_iff rt ds).1 (each_usable ds w),
              All→any_miss rt alert scope.include_matchers (includes-keep rt _ ms inc),
              All→any_hit rt alert scope.exclude_matchers (excludes-keep rt _ ms exc),
            ),
      )

  stored_iff :
      (o : Option (List MatcherDict))
      → (scope_matches rt (compile_scope rt o) alert ≡ true) ↔ Restricts o (All (Within rt alert))
  stored_iff none = (λ h. tt, λ h. unfold scope_matches in refl)
  stored_iff (some []) = (λ h. tt, λ h. unfold scope_matches in refl)
  stored_iff (some (d ∷ ds)) = dicts_iff (d ∷ ds)

  -- A share lets an alert through exactly when its stored list is NULL or empty, or every dict of the
  -- list has a kind, a target and a pattern, the pattern compiles, and the alert matches it or not as
  -- its kind asks. One broken dict therefore denies every alert.
  pub share_matches_iff :
      (share : AlertShare)
      → (share_matches rt share alert ≡ true) ↔ Restricts share.matchers (All (Within rt alert))
  unfolding share_matches compile_share_scope
  share_matches_iff share = stored_iff share.matchers
