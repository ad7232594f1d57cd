-- ===== src/Retention/Batches.antt =====
-- What a loop of batches in backend/app/services/retention.py deletes, for any table with distinct ids.
use k8s_alert_manager.Prelude.{
  ℕ, zero, suc, ◌+◌, ◌≤◌, ◌<◌, ◌≡◌, ◌≢◌, refl, sym, ap, ◌∙◌, subst, Bool, true, false, not, List,
  [], ◌∷◌, map, filter, elem, length, take, ltb, is_empty, All, All-map, ==_refl, Bool-cases, inl,
  inr, arith,
}
use k8s_alert_manager.Models.Db.{Db}
use k8s_alert_manager.Retention.{batch_size, delete_batches}

abbrev Distinct : List ℕ → Type 0
Distinct [] = Unit
Distinct (n ∷ ns) = All (λ m. m ≢ n) ns × Distinct ns

-- The ids that are not in a list.
abbrev without : List ℕ → List ℕ → List ℕ
without ids ns = filter (λ n. not (elem n ids)) ns

without-other :
    (n : ℕ) (ids ns : List ℕ) → All (λ m. m ≢ n) ns → without (n ∷ ids) ns ≡ without ids ns
without-other n ids [] h = refl
without-other n ids (m ∷ ns) h = ground (arith, h.0, without-other n ids ns h.1)

without-none : (ns : List ℕ) → without [] ns ≡ ns
without-none [] = refl
without-none (n ∷ ns) = ap (λ ms. n ∷ ms) (without-none ns)

-- Taking away the first ids leaves so many fewer.
length-without :
    (k : ℕ) (ns : List ℕ)
    → Distinct ns
    → length (without (take k ns) ns) + length (take k ns) ≡ length ns
length-without zero ns d = omega (arith, ap length (without-none ns))
length-without (suc k) [] d = refl
length-without (suc k) (n ∷ ns) d =
    let itself = ==_refl n in
    let rest = ap length (without-other n (take k ns) ns d.0) in
    ground (arith, itself, rest, length-without k ns d.1)

elem-take : (n k : ℕ) (ns : List ℕ) → elem n ns ≡ false → elem n (take k ns) ≡ false
elem-take n zero ns h = refl
elem-take n (suc k) [] h = refl
elem-take n (suc k) (m ∷ ns) h = ground (arith, h, elem-take n k ns)

elem-distinct : (n : ℕ) (ns : List ℕ) → All (λ m. m ≢ n) ns → elem n ns ≡ false
elem-distinct n [] h = refl
elem-distinct n (m ∷ ns) h = ground (arith, h.0, elem-distinct n ns h.1)

take-empty : (k : ℕ) (ns : List ℕ) → is_empty (take (suc k) ns) ≡ true → ns ≡ []
take-empty k [] h = refl
take-empty k (n ∷ ns) h = absurd (ground (arith, h))

-- A batch that is not full is everything.
take-short : (k : ℕ) (ns : List ℕ) → length (take k ns) < k → length (take k ns) ≡ length ns
take-short zero ns h = absurd (ground (arith, h))
take-short (suc k) [] h = refl
take-short (suc k) (n ∷ ns) h = omega (arith, take-short k ns, h)

short_size : (n : ℕ) → ltb n batch_size ≡ true → n < batch_size
short_size n h = ground (arith, h)

full_size : (n : ℕ) → ltb n batch_size ≡ false → 1 ≤ n
full_size n h = ground (arith, h)

module _ {A : Type 0} (id : A → ℕ) (sel : A → Bool) where
  abbrev pub DistinctRows : List A → Type 0
  DistinctRows [] = Unit
  DistinctRows (x ∷ xs) = All (λ y. id y ≢ id x) xs × DistinctRows xs

  abbrev remaining : List ℕ → List A → List A
  remaining ids xs = filter (λ x. not (elem (id x) ids)) xs

  abbrev selected : List A → List ℕ
  selected xs = map id (filter sel xs)

  All-selected : (P : ℕ → Type 0) (xs : List A) → All (λ x. P (id x)) xs → All P (selected xs)
  All-selected P [] h = tt
  All-selected P (x ∷ xs) h = elim (Bool-cases (sel x)) [
    | inl on ↦ rw on (h.0, All-selected P xs h.1)
    | inr off ↦ rw off (All-selected P xs h.1)
  ]

  selected-Distinct : (xs : List A) → DistinctRows xs → Distinct (selected xs)
  selected-Distinct [] d = tt
  selected-Distinct (x ∷ xs) d = elim (Bool-cases (sel x)) [
    | inl on ↦ rw on (All-selected (λ m. m ≢ id x) xs d.0, selected-Distinct xs d.1)
    | inr off ↦ rw off (selected-Distinct xs d.1)
  ]

  All-remaining :
      (P : A → Type 0) (ids : List ℕ) (xs : List A) → All P xs → All P (remaining ids xs)
  All-remaining P ids [] h = tt
  All-remaining P ids (x ∷ xs) h = elim (Bool-cases (elem (id x) ids)) [
    | inl on ↦ rw on (All-remaining P ids xs h.1)
    | inr off ↦ rw off (h.0, All-remaining P ids xs h.1)
  ]

  remaining-DistinctRows :
      (ids : List ℕ) (xs : List A) → DistinctRows xs → DistinctRows (remaining ids xs)
  remaining-DistinctRows ids [] d = tt
  remaining-DistinctRows ids (x ∷ xs) d = elim (Bool-cases (elem (id x) ids)) [
    | inl on ↦ rw on (remaining-DistinctRows ids xs d.1)
    | inr off ↦ rw off (All-remaining _ ids xs d.0, remaining-DistinctRows ids xs d.1)
  ]

  selected-remaining :
      (ids : List ℕ) (xs : List A) → selected (remaining ids xs) ≡ without ids (selected xs)
  selected-remaining ids [] = refl
  selected-remaining ids (x ∷ xs) = elim (Bool-cases (elem (id x) ids)) [
    | inl gone ↦ elim (Bool-cases (sel x)) [
      | inl on ↦ rw (gone, on, gone) (selected-remaining ids xs)
      | inr off ↦ rw (gone, off) (selected-remaining ids xs)
    ]
    | inr here ↦ elim (Bool-cases (sel x)) [
      | inl on ↦ rw (here, on, here) (ap (λ ns. id x ∷ ns) (selected-remaining ids xs))
      | inr off ↦ rw (here, off) (selected-remaining ids xs)
    ]
  ]

  -- No row that is not selected has one of the ids.
  abbrev Spared : List ℕ → List A → Type 0
  Spared ids xs = All (λ x. sel x ≡ false → elem (id x) ids ≡ false) xs

  Spared-cons :
      (n : ℕ) (ids : List ℕ) (xs : List A)
      → All (λ y. id y ≢ n) xs
      → Spared ids xs
      → Spared (n ∷ ids) xs
  Spared-cons n ids [] d h = tt
  Spared-cons n ids (y ∷ ys) d h =
      (λ off. ground (arith, d.0, h.0 off), Spared-cons n ids ys d.1 h.1)

  selected-Spared : (xs : List A) → DistinctRows xs → Spared (selected xs) xs
  selected-Spared [] d = tt
  selected-Spared (x ∷ xs) d = elim (Bool-cases (sel x)) [
    | inl on ↦
        let same : selected (x ∷ xs) ≡ id x ∷ selected xs = rw on refl in
        (
          λ off. absurd (ground (arith, on, off)),
          subst (λ ids. Spared ids xs) (sym same)
              (Spared-cons (id x) (selected xs) xs d.0 (selected-Spared xs d.1)),
        )
    | inr off ↦
        let same : selected (x ∷ xs) ≡ selected xs = rw off refl in
        (
          λ _. rw same (elem-distinct (id x) (selected xs) (All-selected (λ m. m ≢ id x) xs d.0)),
          subst (λ ids. Spared ids xs) (sym same) (selected-Spared xs d.1),
        )
  ]

  rest_kept :
      (ids : List ℕ) (xs : List A)
      → Spared ids xs
      → filter (λ x. not (sel x)) (remaining ids xs) ≡ filter (λ x. not (sel x)) xs
  rest_kept ids [] h = refl
  rest_kept ids (x ∷ xs) h = elim (Bool-cases (sel x)) [
    | inl on ↦ elim (Bool-cases (elem (id x) ids)) [
      | inl gone ↦ rw (gone, on) (rest_kept ids xs h.1)
      | inr here ↦ rw (here, on) (rest_kept ids xs h.1)
    ]
    | inr off ↦ rw (h.0 off, off) (ap (λ more. x ∷ more) (rest_kept ids xs h.1))
  ]

  nothing_selected : (xs : List A) → length (selected xs) ≡ 0 → filter (λ x. not (sel x)) xs ≡ xs
  nothing_selected [] h = refl
  nothing_selected (x ∷ xs) h = elim (Bool-cases (sel x)) [
    | inl on ↦ absurd (ground (arith, on, h))
    | inr off ↦ rw off (ap (λ more. x ∷ more) (nothing_selected xs (rw off at h)))
  ]

  -- The loop deletes the selected rows, each once, and nothing else, if its statement deletes by the
  -- ids of this table.
  module _ (rows : Db → List A) (delete_by_ids : List ℕ → Db → ℕ × Db)
      (deletes : (ids : List ℕ) (db : Db)
        → (rows (delete_by_ids ids db).1 ≡ remaining ids (rows db))
          × ((delete_by_ids ids db).0 ≡ 0)) where
    abbrev loop : ℕ → Db → ℕ × Db
    loop = delete_batches (λ db. selected (rows db)) delete_by_ids

    -- One batch: it takes its ids away from the selected rows, and leaves the others.
    batch_fewer :
        (db : Db)
        → DistinctRows (rows db)
        → let ids = take batch_size (selected (rows db)) in
          length (selected (rows (delete_by_ids ids db).1)) + length ids
          ≡ length (selected (rows db))
    batch_fewer db d =
        let all = selected (rows db) in
        let ids = take batch_size all in
        let cut =
          ap (λ xs. length (selected xs)) (deletes ids db).0
          ∙ ap length (selected-remaining ids (rows db)) in
        omega (arith, cut, length-without batch_size all (selected-Distinct (rows db) d))

    batch_keeps :
        (db : Db)
        → DistinctRows (rows db)
        → let ids = take batch_size (selected (rows db)) in
          filter (λ x. not (sel x)) (rows (delete_by_ids ids db).1)
          ≡ filter (λ x. not (sel x)) (rows db)
    batch_keeps db d =
        let ids = take batch_size (selected (rows db)) in
        ap (filter (λ x. not (sel x))) (deletes ids db).0
        ∙ rest_kept ids (rows db) (
            All-map _ _ (rows db)
              (λ x spared off. elem-take (id x) batch_size (selected (rows db)) (spared off))
              (selected-Spared (rows db) d))

    pub delete_batches_lem :
        (fuel : ℕ) (db : Db)
        → DistinctRows (rows db)
        → length (selected (rows db)) < fuel
        → (rows (loop fuel db).1 ≡ filter (λ x. not (sel x)) (rows db))
          × ((loop fuel db).0 ≡ length (selected (rows db)))
    unfolding delete_batches
    delete_batches_lem zero db d h = absurd (ground (arith, h))
    delete_batches_lem (suc fuel) db d h =
        let all = selected (rows db) in
        let ids = take batch_size all in
        let db' = (delete_by_ids ids db).1 in
        let fewer = batch_fewer db d in
        let kept = batch_keeps db d in
        let none_more = (deletes ids db).1 in
        elim (Bool-cases (is_empty ids)) [
          | inl nothing ↦
              let e = take-empty 999 all nothing in
              rw nothing (sym (nothing_selected (rows db) (ap length e)), sym (ap length e))
          | inr something ↦ elim (Bool-cases (ltb (length ids) batch_size)) [
            | inl short ↦
                let done = take-short batch_size all (short_size (length ids) short) in
                rw (something, short)
                  (
                    sym (nothing_selected (rows db') (omega (arith, fewer, done))) ∙ kept,
                    omega (arith, none_more, done),
                  )
            | inr full ↦
                let d' =
                  subst DistinctRows (sym (deletes ids db).0)
                    (remaining-DistinctRows ids (rows db) d) in
                let more : 1 ≤ length ids = full_size (length ids) full in
                let next = delete_batches_lem fuel db' d' (omega (arith, fewer, more, h)) in
                rw (something, full) (next.0 ∙ kept, omega (arith, next.1, none_more, fewer))
          ]
        ]

-- What no statement of the loop touches, the loop does not touch.
pub delete_batches-frame :
    {X : Type 0} (F : Db → X) (select_ids : Db → List ℕ) (delete_by_ids : List ℕ → Db → ℕ × Db)
    → ((ids : List ℕ) (db : Db) → F (delete_by_ids ids db).1 ≡ F db)
    → (fuel : ℕ) (db : Db) → F (delete_batches select_ids delete_by_ids fuel db).1 ≡ F db
unfolding delete_batches
delete_batches-frame F select_ids delete_by_ids h zero db = refl
delete_batches-frame F select_ids delete_by_ids h (suc fuel) db =
    let ids = take batch_size (select_ids db) in
    let step = h ids db in
    elim (Bool-cases (is_empty ids)) [
      | inl nothing ↦ rw nothing refl
      | inr something ↦ elim (Bool-cases (ltb (length ids) batch_size)) [
        | inl short ↦ rw (something, short) step
        | inr full ↦
            rw (something, full)
              (delete_batches-frame F select_ids delete_by_ids h fuel (delete_by_ids ids db).1
                ∙ step)
      ]
    ]
