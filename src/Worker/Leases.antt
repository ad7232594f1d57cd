-- ===== src/Worker/Leases.antt =====
-- Claims and leases: `claim_batch` and `recover_stale_leases` of backend/app/worker/outbox.py.
use k8s_alert_manager.Prelude.{
  ℕ, String, ◌≡◌, refl, inl, inr, true, false, List, [], ◌∷◌, count, elem, update_where, All,
  All-updated, Any, Bool-cases, arith,
}
use k8s_alert_manager.Models.Outbox.{NotificationOutbox, is_pending}
use k8s_alert_manager.Models.Db.{Db}
use k8s_alert_manager.Worker.Claim.{
  is_due, claimed_by, due_ids, claim_batch, is_stale, released, recover_stale_leases,
}
use k8s_alert_manager.Worker.Due.{due-of_claimed}

Any-All :
    (P Q : NotificationOutbox → Type 0) (rs : List NotificationOutbox)
    → All P rs
    → Any Q rs
    → (r : NotificationOutbox) × P r × Q r
Any-All P Q [] a h = absurd h
Any-All P Q (r ∷ rs) a (inl q) = (r, a.0, q)
Any-All P Q (r ∷ rs) a (inr h) = Any-All P Q rs a.1 h

-- Right after a claim no row with a claimed id is pending.
claimed_not_pending :
    (worker : String) (now limit : ℕ) (db : Db)
    → let (ids, db') = claim_batch worker now limit db in
      All (λ r. elem r.id ids ≡ true → is_pending r.status ≡ false) db'.outbox
unfolding claim_batch
claimed_not_pending worker now limit db =
    let ids = due_ids db now limit in
    All-updated _ (λ r. elem r.id ids) (claimed_by worker now) db.outbox
      (λ r e k. unfold is_pending in refl) (λ r e k. absurd (ground arith))

-- No row is claimed twice: what one worker has claimed, the next claim, by any worker and at any
-- later or earlier time, does not take.
pub claim_batch_exclusive :
    (first second : String) (now later limit more : ℕ) (db : Db) (n : ℕ)
    → let (ids, db') = claim_batch first now limit db in
      elem n ids ≡ true → elem n (claim_batch second later more db').0 ≡ false
claim_batch_exclusive first second now later limit more db n mine =
    elim (Bool-cases
      (elem n (claim_batch second later more (claim_batch first now limit db).1).0)) [
        | inr free ↦ free
        | inl taken ↦
            let (r, held, hit) = Any-All _ _ _ (claimed_not_pending first now limit db) (
              due-of_claimed (claim_batch first now limit db).1 later more n
                (unfold claim_batch in taken)) in
            absurd (contradiction r (held (rw hit.1 mine)) hit.0)
      ]
  where
    contradiction :
        (r : NotificationOutbox) → is_pending r.status ≡ false → is_due later r ≡ true → ⊥
    contradiction r h k = unfold is_due in ground arith

-- A second recovery at the same time, with the same timeout, finds no stale lease.
pub recover-none_stale :
    (lease_timeout now : ℕ) (db : Db)
    → (recover_stale_leases lease_timeout now (recover_stale_leases lease_timeout now db).1).0 ≡ 0
unfolding recover_stale_leases
recover-none_stale lease_timeout now db = none_left db.outbox
  where
    none_left :
        (rs : List NotificationOutbox)
        → count (is_stale lease_timeout now) (update_where (is_stale lease_timeout now) released rs)
          ≡ 0
    none_left [] = refl
    none_left (r ∷ rs) = elim (Bool-cases (is_stale lease_timeout now r)) [
      | inl e ↦ rw e (ground (arith, none_left rs, not_stale r))
      | inr e ↦ rw e (ground (arith, none_left rs))
    ]
      where
        not_stale : (x : NotificationOutbox) → is_stale lease_timeout now (released x) ≡ false
        not_stale x = unfold is_stale in refl
