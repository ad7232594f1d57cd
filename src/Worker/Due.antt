-- ===== src/Worker/Due.antt =====
-- Which rows `claim_batch` takes.
use k8s_alert_manager.Prelude.{
  ℕ, zero, suc, ◌≤◌, ◌≡◌, refl, ◌⊎◌, inl, inr, Bool, true, false, List, [], ◌∷◌, map, filter, take,
  count, elem, leb, ◌==◌, ==_iff, All, All-map, Any, Bool-cases, arith,
}
use k8s_alert_manager.Models.Outbox.{NotificationOutbox}
use k8s_alert_manager.Models.Db.{Db}
use k8s_alert_manager.Worker.Claim.{insert_by_due, order_by_due, is_due, due_ids}

-- The primary key of the table.
pub record UniqueIds (db : Db) : Type 0 where
  pub at_id : (n : ℕ) → count (λ r. r.id == n) db.outbox ≤ 1

module _ (P : NotificationOutbox → Type 0) where
  Any-of_insert :
      (r : NotificationOutbox) (rs : List NotificationOutbox)
      → Any P (insert_by_due r rs)
      → P r ⊎ Any P rs
  unfolding insert_by_due
  Any-of_insert r [] h = h
  Any-of_insert r (x ∷ xs) h = elim (Bool-cases (leb r.next_attempt_at x.next_attempt_at)) [
    | inl e ↦ rw e at h
    | inr e ↦
        let h' : P x ⊎ Any P (insert_by_due r xs) = rw e at h in
        elim h' [
          | inl px ↦ inr (inl px)
          | inr rest ↦ elim (Any-of_insert r xs rest) [ inl pr ↦ inl pr | inr pxs ↦ inr (inr pxs) ]
        ]
  ]

  Any-of_order : (rs : List NotificationOutbox) → Any P (order_by_due rs) → Any P rs
  unfolding order_by_due
  Any-of_order [] h = h
  Any-of_order (r ∷ rs) h = elim (Any-of_insert r (order_by_due rs) h) [
    | inl pr ↦ inl pr
    | inr prs ↦ inr (Any-of_order rs prs)
  ]

  Any-of_take : (n : ℕ) (rs : List NotificationOutbox) → Any P (take n rs) → Any P rs
  Any-of_take zero rs h = absurd h
  Any-of_take (suc n) [] h = h
  Any-of_take (suc n) (r ∷ rs) (inl pr) = inl pr
  Any-of_take (suc n) (r ∷ rs) (inr prs) = inr (Any-of_take n rs prs)

  Any-of_filter :
      (p : NotificationOutbox → Bool) (rs : List NotificationOutbox)
      → Any P (filter p rs)
      → Any (λ r. (p r ≡ true) × P r) rs
  Any-of_filter p [] h = h
  Any-of_filter p (r ∷ rs) h = elim (Bool-cases (p r)) [
    | inl e ↦
        let h' : P r ⊎ Any P (filter p rs) = rw e at h in
        elim h' [ inl pr ↦ inl (e, pr) | inr prs ↦ inr (Any-of_filter p rs prs) ]
    | inr e ↦ inr (Any-of_filter p rs (rw e at h))
  ]

Any-of_ids :
    (n : ℕ) (rs : List NotificationOutbox)
    → elem n (map (λ r. r.id) rs) ≡ true
    → Any (λ r. r.id ≡ n) rs
Any-of_ids n [] h = cc
Any-of_ids n (r ∷ rs) h = elim (Bool-cases (r.id == n)) [
  | inl e ↦ inl ((==_iff r.id n).0 e)
  | inr e ↦ inr (Any-of_ids n rs (ground arith))
]

some_there :
    (now n : ℕ) (rs : List NotificationOutbox)
    → Any (λ r. (is_due now r ≡ true) × (r.id ≡ n)) rs
    → 1 ≤ count (λ r. r.id == n) rs
some_there now n [] h = absurd h
some_there now n (r ∷ rs) (inl (due, e)) = ground (arith, (==_iff r.id n).1 e)
some_there now n (r ∷ rs) (inr h) = ground (arith, some_there now n rs h)

-- With distinct ids, one due row with an id makes every row with that id due.
only_due :
    (now n : ℕ) (rs : List NotificationOutbox)
    → count (λ r. r.id == n) rs ≤ 1
    → Any (λ r. (is_due now r ≡ true) × (r.id ≡ n)) rs
    → All (λ r. r.id ≡ n → is_due now r ≡ true) rs
only_due now n [] u h = tt
only_due now n (r ∷ rs) u (inl (due, e)) =
    (λ _. due, nobody rs (ground (arith, (==_iff r.id n).1 e)))
  where
    nobody :
        (xs : List NotificationOutbox)
        → count (λ x. x.id == n) xs ≡ 0
        → All (λ x. x.id ≡ n → is_due now x ≡ true) xs
    nobody [] z = tt
    nobody (x ∷ xs) z =
        (λ same. absurd (ground (arith, (==_iff x.id n).1 same)), nobody xs (ground arith))
only_due now n (r ∷ rs) u (inr h) = (
  λ same. absurd (ground (arith, (==_iff r.id n).1 same, some_there now n rs h)),
  only_due now n rs (ground arith) h,
)

-- Every claimed id is that of a due row.
pub due-of_claimed :
    (db : Db) (now limit n : ℕ)
    → elem n (due_ids db now limit) ≡ true
    → Any (λ r. (is_due now r ≡ true) × (r.id ≡ n)) db.outbox
unfolding due_ids
due-of_claimed db now limit n h = Any-of_filter _ (is_due now) db.outbox (
    Any-of_order _ (filter (is_due now) db.outbox) (
      Any-of_take _ limit (order_by_due (filter (is_due now) db.outbox))
        (Any-of_ids n (take limit (order_by_due (filter (is_due now) db.outbox))) h)))

not_claimed :
    (db : Db) (now limit : ℕ) (n : ℕ) (b : Bool)
    → UniqueIds db
    → elem n (due_ids db now limit) ≡ b
    → All (λ r. r.id ≡ n → is_due now r ≡ false → b ≡ false) db.outbox
not_claimed db now limit n false u e = all_refl db.outbox
  where
    all_refl :
        (rs : List NotificationOutbox)
        → All (λ r. r.id ≡ n → is_due now r ≡ false → ◌≡◌ {A = Bool} false false) rs
    all_refl [] = tt
    all_refl (r ∷ rs) = ((λ _ _. refl), all_refl rs)
not_claimed db now limit n true u e =
    All-map _ _ db.outbox (λ r due same idle. absurd (ground (arith, due same)))
      (only_due now n db.outbox (u.at_id n) (due-of_claimed db now limit n e))

-- With distinct ids, a row that is not due is not claimed.
pub idle-not_claimed :
    (db : Db) (now limit : ℕ)
    → UniqueIds db
    → All (λ r. is_due now r ≡ false → elem r.id (due_ids db now limit) ≡ false) db.outbox
idle-not_claimed db now limit u = each db.outbox (λ n. not_claimed db now limit n _ u refl)
  where
    each :
        (xs : List NotificationOutbox)
        → ((n : ℕ)
            → All (λ r. r.id ≡ n → is_due now r ≡ false → elem n (due_ids db now limit) ≡ false) xs)
        → All (λ r. is_due now r ≡ false → elem r.id (due_ids db now limit) ≡ false) xs
    each [] h = tt
    each (x ∷ xs) h = ((h x.id).0 refl, each xs (λ n. (h n).1))
