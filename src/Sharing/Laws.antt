-- ===== src/Sharing/Laws.antt =====
-- A share fails closed: what it admits, said of the stored dicts.
use k8s_alert_manager.Prelude.{
  ℕ, suc, String, ◌+◌, ◌≤◌, ◌≡◌, refl, inl, inr, Bool, true, false, not, none, some, List, [], ◌∷◌,
  length, length-append, any, count, is_some, ◌&&◌, All, Option-cases, arith,
}
use k8s_alert_manager.Runtime.{Runtime}
use k8s_alert_manager.Models.Routing.{MatcherKind, Target, is_include, RoutingMatcher}
use k8s_alert_manager.Models.Share.{MatcherDict}
use k8s_alert_manager.Routing.Compile.{
  CompiledMatcher, insert_by_position, sort_by_position, compiled, compile_step, compile_loop,
  compile_matchers,
}
use k8s_alert_manager.Routing.Evaluate.{Matchable, matcher_matches}
use k8s_alert_manager.Sharing.{transient_matcher, transient_from}

abbrev pub sizes : List CompiledMatcher × List CompiledMatcher → ℕ
sizes (inc, exc) = length inc + length exc

module _ (p : RoutingMatcher → Bool) where
  count-insert :
      (m : RoutingMatcher) (ms : List RoutingMatcher)
      → count p (insert_by_position m ms) ≡ count p (m ∷ ms)
  unfolding insert_by_position
  count-insert m [] = refl
  count-insert m (x ∷ xs) = ground (arith, count-insert m xs)

  count-sort : (ms : List RoutingMatcher) → count p (sort_by_position ms) ≡ count p ms
  unfolding sort_by_position
  count-sort [] = refl
  count-sort (m ∷ ms) = ground (arith, count-insert m (sort_by_position ms), count-sort ms)

transient_from-cons :
    (n : ℕ) (d : MatcherDict) (ds : List MatcherDict) (m : RoutingMatcher)
    → transient_matcher n d ≡ some m
    → transient_from n (d ∷ ds) ≡ m ∷ transient_from (suc n) ds
unfolding transient_from
transient_from-cons n d ds m e = ground arith

module _ (rt : Runtime) where
  sizes-loop :
      (acc : List CompiledMatcher × List CompiledMatcher) (ms : List RoutingMatcher)
      → sizes (compile_loop rt acc ms) ≡ sizes acc + count (λ m. rt.compiles m.pattern) ms
  unfolding compile_loop is_include
  sizes-loop acc [] = omega arith
  sizes-loop (inc, exc) (m ∷ ms) =
      let c = compiled rt m m.pattern in
      ground (
        arith,
        sizes-loop (compile_step rt (inc, exc) m) ms,
        length-append inc (c ∷ []),
        length-append exc (c ∷ []),
      )

  -- As many matchers come out as have a pattern that compiles.
  pub sizes-compile_matchers :
      (ms : List RoutingMatcher)
      → sizes (compile_matchers rt ms) ≡ count (λ m. rt.compiles m.pattern) ms
  unfolding compile_matchers
  sizes-compile_matchers ms =
      ground (
        arith,
        sizes-loop ([], []) (sort_by_position ms),
        count-sort (λ m. rt.compiles m.pattern) ms,
      )

  unfoldable pub usable : MatcherDict → Bool
  usable d =
      is_some d.kind && is_some d.target && elim d.pattern [ none ↦ false | some p ↦ rt.compiles p ]

  pub count-transient :
      (n : ℕ) (ds : List MatcherDict)
      → count (λ m. rt.compiles m.pattern) (transient_from n ds) ≡ count usable ds
  unfolding transient_from usable
  count-transient n [] = refl
  count-transient n (d ∷ ds) = ground (arith, count-transient (suc n) ds)

  pub count-le-length : (ds : List MatcherDict) → count usable ds ≤ length ds
  count-le-length [] = omega arith
  count-le-length (d ∷ ds) = ground (arith, count-le-length ds)

  head_usable :
      (d : MatcherDict) (ds : List MatcherDict)
      → count usable (d ∷ ds) ≡ length (d ∷ ds)
      → usable d ≡ true
  head_usable d ds h = ground (arith, count-le-length ds)

  tail_usable :
      (d : MatcherDict) (ds : List MatcherDict)
      → count usable (d ∷ ds) ≡ length (d ∷ ds)
      → count usable ds ≡ length ds
  tail_usable d ds h = ground (arith, count-le-length ds)

  -- The dict is complete, its pattern compiles, and the alert is on the side that its kind asks for.
  pub record Within (alert : Matchable) (d : MatcherDict) : Type 0 where
    pub kind : MatcherKind
    pub target : Target
    pub pattern : String
    pub has_kind : d.kind ≡ some kind
    pub has_target : d.target ≡ some target
    pub has_pattern : d.pattern ≡ some pattern
    pub compiles : rt.compiles pattern ≡ true
    pub matches :
        matcher_matches rt alert
          (record { position = 0; kind = kind; target = target; key = d.key; regex = pattern })
        ≡ is_include kind

  module _ (alert : Matchable) where
    abbrev pub Hit : RoutingMatcher → Type 0
    Hit m =
        rt.compiles m.pattern ≡ true
        → matcher_matches rt alert (compiled rt m m.pattern) ≡ is_include m.kind

    Within-of_Hit :
        (n : ℕ) (d : MatcherDict) (m : RoutingMatcher)
        → transient_matcher n d ≡ some m
        → usable d ≡ true
        → Hit m
        → Within alert d
    unfolding transient_matcher usable matcher_matches
    Within-of_Hit n d m e u h = record {
      kind = m.kind;
      target = m.target;
      pattern = m.pattern;
      has_kind = ground arith;
      has_target = ground arith;
      has_pattern = ground arith;
      compiles = ground arith;
      matches = ground arith;
    }

    Hit-of_Within :
        (n : ℕ) (d : MatcherDict) (m : RoutingMatcher)
        → transient_matcher n d ≡ some m
        → Within alert d
        → Hit m
    unfolding transient_matcher matcher_matches
    Hit-of_Within n d m e w c = ground arith

    transient_some :
        (n : ℕ) (d : MatcherDict)
        → usable d ≡ true
        → (m : RoutingMatcher) × (transient_matcher n d ≡ some m)
    unfolding transient_matcher usable
    transient_some n d u = elim (Option-cases (transient_matcher n d)) [
      | inl e ↦ absurd (ground arith)
      | inr found ↦ found
    ]

    pub Within-usable : (d : MatcherDict) → Within alert d → usable d ≡ true
    unfolding usable
    Within-usable d w = ground arith

    pub Within-of_Hits :
        (n : ℕ) (ds : List MatcherDict)
        → count usable ds ≡ length ds
        → All Hit (transient_from n ds)
        → All (Within alert) ds
    Within-of_Hits n [] u h = tt
    Within-of_Hits n (d ∷ ds) u h =
        let (m, e) = transient_some n d (head_usable d ds u) in
        let hs : Hit m × All Hit (transient_from (suc n) ds) =
          rw (transient_from-cons n d ds m e) at h in
        (
          Within-of_Hit n d m e (head_usable d ds u) hs.0,
          Within-of_Hits (suc n) ds (tail_usable d ds u) hs.1,
        )

    pub Hits-of_Within :
        (n : ℕ) (ds : List MatcherDict) → All (Within alert) ds → All Hit (transient_from n ds)
    Hits-of_Within n [] w = unfold transient_from in tt
    Hits-of_Within n (d ∷ ds) w =
        let (m, e) = transient_some n d (Within-usable d w.0) in
        rw (transient_from-cons n d ds m e)
          (Hit-of_Within n d m e w.0, Hits-of_Within (suc n) ds w.1)

    pub any_miss→All :
        (ms : List CompiledMatcher)
        → any (λ m. not (matcher_matches rt alert m)) ms ≡ false
        → All (λ m. matcher_matches rt alert m ≡ true) ms
    any_miss→All [] h = tt
    any_miss→All (m ∷ ms) h = (ground arith, any_miss→All ms (ground arith))

    pub All→any_miss :
        (ms : List CompiledMatcher)
        → All (λ m. matcher_matches rt alert m ≡ true) ms
        → any (λ m. not (matcher_matches rt alert m)) ms ≡ false
    All→any_miss [] h = refl
    All→any_miss (m ∷ ms) h = ground (arith, All→any_miss ms h.1)

    pub any_hit→All :
        (ms : List CompiledMatcher)
        → any (λ m. matcher_matches rt alert m) ms ≡ false
        → All (λ m. matcher_matches rt alert m ≡ false) ms
    any_hit→All [] h = tt
    any_hit→All (m ∷ ms) h = (ground arith, any_hit→All ms (ground arith))

    pub All→any_hit :
        (ms : List CompiledMatcher)
        → All (λ m. matcher_matches rt alert m ≡ false) ms
        → any (λ m. matcher_matches rt alert m) ms ≡ false
    All→any_hit [] h = refl
    All→any_hit (m ∷ ms) h = ground (arith, All→any_hit ms h.1)
