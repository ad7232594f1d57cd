-- ===== src/Routing/Compiled.antt =====
-- What `compile_matchers` keeps of a rule's matchers, whatever their order.
use k8s_alert_manager.Prelude.{
  ◌≡◌, inl, inr, Bool, true, false, List, [], ◌∷◌, ◌++◌, leb, if◌then◌else◌, Bool-cases, All,
  All-append, arith,
}
use k8s_alert_manager.Runtime.{Runtime}
use k8s_alert_manager.Models.Routing.{is_include, RoutingMatcher}
use k8s_alert_manager.Routing.Compile.{
  CompiledMatcher, insert_by_position, sort_by_position, compiled, compile_step, compile_loop,
  compile_matchers,
}

module _ {ℓ} (P : RoutingMatcher → Type ℓ) where
  All-insert :
      (m : RoutingMatcher) (ms : List RoutingMatcher)
      → P m
      → All P ms
      → All P (insert_by_position m ms)
  unfolding insert_by_position
  All-insert m [] h hs = (h, tt)
  All-insert m (x ∷ xs) h hs = elim (Bool-cases (leb m.position x.position)) [
    | inl e ↦ rw e (h, hs)
    | inr e ↦ rw e (hs.0, All-insert m xs h hs.1)
  ]

  All-of_insert :
      (m : RoutingMatcher) (ms : List RoutingMatcher)
      → All P (insert_by_position m ms)
      → P m × All P ms
  unfolding insert_by_position
  All-of_insert m [] h = (h.0, tt)
  All-of_insert m (x ∷ xs) h = elim (Bool-cases (leb m.position x.position)) [
    | inl e ↦ rw e at h
    | inr e ↦
        let rest : P x × All P (insert_by_position m xs) = rw e at h in
        let (hm, hxs) = All-of_insert m xs rest.1 in (hm, (rest.0, hxs))
  ]

  pub All-sort : (ms : List RoutingMatcher) → All P ms → All P (sort_by_position ms)
  unfolding sort_by_position
  All-sort [] h = tt
  All-sort (m ∷ ms) h = All-insert m (sort_by_position ms) h.0 (All-sort ms h.1)

  pub All-of_sort : (ms : List RoutingMatcher) → All P (sort_by_position ms) → All P ms
  unfolding sort_by_position
  All-of_sort [] h = tt
  All-of_sort (m ∷ ms) h =
      let (hm, hms) = All-of_insert m (sort_by_position ms) h in (hm, All-of_sort ms hms)

All-append_left {ℓ κ} : {A : Type ℓ} (P : A → Type κ) (xs ys : List A) → All P (xs ++ ys) → All P xs
All-append_left P [] ys h = tt
All-append_left P (x ∷ xs) ys h = (h.0, All-append_left P xs ys h.1)

All-append_right {ℓ κ} :
    {A : Type ℓ} (P : A → Type κ) (xs ys : List A) → All P (xs ++ ys) → All P ys
All-append_right P [] ys h = h
All-append_right P (x ∷ xs) ys h = All-append_right P xs ys h.1

module _ (rt : Runtime) (side : Bool) (P : CompiledMatcher → Type 0) where
  -- A matcher that is on this side of the pair and compiles satisfies `P` once compiled.
  abbrev pub Kept : RoutingMatcher → Type 0
  Kept m = is_include m.kind ≡ side → rt.compiles m.pattern ≡ true → P (compiled rt m m.pattern)

  abbrev pick : List CompiledMatcher × List CompiledMatcher → List CompiledMatcher
  pick (inc, exc) = if side then inc else exc

  step-keeps :
      (acc : List CompiledMatcher × List CompiledMatcher) (m : RoutingMatcher)
      → All P (pick acc)
      → Kept m
      → All P (pick (compile_step rt acc m))
  unfolding is_include
  step-keeps (inc, exc) m h k =
      let c = compiled rt m m.pattern in
      ground (arith, All-append P inc (c ∷ []), All-append P exc (c ∷ []))

  step_back :
      (acc : List CompiledMatcher × List CompiledMatcher) (m : RoutingMatcher)
      → All P (pick (compile_step rt acc m))
      → All P (pick acc) × Kept m
  unfolding is_include
  step_back (inc, exc) m h =
      let c = compiled rt m m.pattern in
      ground (
        arith,
        All-append_left P inc (c ∷ []),
        All-append_left P exc (c ∷ []),
        All-append_right P inc (c ∷ []),
        All-append_right P exc (c ∷ []),
      )

  loop-keeps :
      (acc : List CompiledMatcher × List CompiledMatcher) (ms : List RoutingMatcher)
      → All P (pick acc)
      → All Kept ms
      → All P (pick (compile_loop rt acc ms))
  unfolding compile_loop
  loop-keeps acc [] h k = h
  loop-keeps acc (m ∷ ms) h k = loop-keeps (compile_step rt acc m) ms (step-keeps acc m h k.0) k.1

  loop_back :
      (acc : List CompiledMatcher × List CompiledMatcher) (ms : List RoutingMatcher)
      → All P (pick (compile_loop rt acc ms))
      → All P (pick acc) × All Kept ms
  unfolding compile_loop
  loop_back acc [] h = (h, tt)
  loop_back acc (m ∷ ms) h =
      let (ha, hms) = loop_back (compile_step rt acc m) ms h in
      let (hacc, hm) = step_back acc m ha in (hacc, (hm, hms))

module _ (rt : Runtime) (P : CompiledMatcher → Type 0) (ms : List RoutingMatcher) where
  pub includes-keep : All (Kept rt true P) ms → All P (compile_matchers rt ms).0
  unfolding compile_matchers
  includes-keep k =
      loop-keeps rt true P ([], []) (sort_by_position ms) tt (All-sort (Kept rt true P) ms k)

  pub includes_back : All P (compile_matchers rt ms).0 → All (Kept rt true P) ms
  unfolding compile_matchers
  includes_back h =
      All-of_sort (Kept rt true P) ms (loop_back rt true P ([], []) (sort_by_position ms) h).1

  pub excludes-keep : All (Kept rt false P) ms → All P (compile_matchers rt ms).1
  unfolding compile_matchers
  excludes-keep k =
      loop-keeps rt false P ([], []) (sort_by_position ms) tt (All-sort (Kept rt false P) ms k)

  pub excludes_back : All P (compile_matchers rt ms).1 → All (Kept rt false P) ms
  unfolding compile_matchers
  excludes_back h =
      All-of_sort (Kept rt false P) ms (loop_back rt false P ([], []) (sort_by_position ms) h).1
