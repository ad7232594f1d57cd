-- ===== src/Worker/Retry.antt =====
-- The retry schedule of `_mark_delivery_failure` in backend/app/worker/outbox.py.
use k8s_alert_manager.Prelude.{
  ℕ, zero, suc, ◌+◌, ◌≤◌, ◌<◌, String, ◌≡◌, ◌∙◌, ap, inl, inr, none, List, [], ◌∷◌, length, leb,
  if◌then◌else◌, Bool-cases, arith,
}
use k8s_alert_manager.Models.Outbox.{NotificationOutbox, pending, dead}
use k8s_alert_manager.Worker.Deliver.{max_attempts, seconds, backoff, mark_delivery_failure}

-- The backoff before attempt number `n + 1`, for the numbers that are retried.
backoff_bounds : (n : ℕ) → 1 ≤ n → n < 8 → (60 ≤ backoff n) × (backoff n ≤ 1800)
unfolding backoff
backoff_bounds zero h k = absurd (omega arith)
backoff_bounds (suc zero) h k = (omega arith, omega arith)
backoff_bounds (suc (suc zero)) h k = (omega arith, omega arith)
backoff_bounds (suc (suc (suc zero))) h k = (omega arith, omega arith)
backoff_bounds (suc (suc (suc (suc zero)))) h k = (omega arith, omega arith)
backoff_bounds (suc (suc (suc (suc (suc zero))))) h k = (omega arith, omega arith)
backoff_bounds (suc (suc (suc (suc (suc (suc zero)))))) h k = (omega arith, omega arith)
backoff_bounds (suc (suc (suc (suc (suc (suc (suc zero))))))) h k = (omega arith, omega arith)
backoff_bounds (suc (suc (suc (suc (suc (suc (suc (suc n)))))))) h k = absurd (omega arith)

-- What a failed attempt leaves: a dead row, or a pending row that waits between one minute and half
-- an hour, and the jitter.
pub data Failed (now jitter : ℕ) (r r' : NotificationOutbox) : Type 0 where
  dies : 7 ≤ r.attempts → r'.status ≡ dead → Failed now jitter r r'
  waits :
      r.attempts < 7
      → r'.status ≡ pending
      → now + seconds 60 ≤ r'.next_attempt_at
      → r'.next_attempt_at ≤ now + seconds 1800 + jitter
      → Failed now jitter r r'

module _ (now jitter : ℕ) (error : String) (r : NotificationOutbox) where
  -- A failed attempt counts one more attempt and releases the lock. The eighth makes the row dead;
  -- an earlier one makes it pending, due at least 60 and at most 1800 seconds later, plus the
  -- jitter.
  pub mark_delivery_failure_lem :
      let r' = mark_delivery_failure now jitter error r in
      (r'.attempts ≡ suc r.attempts)
      × (r'.locked_by ≡ none)
      × (r'.locked_at ≡ none)
      × Failed now jitter r r'
  unfolding mark_delivery_failure
  mark_delivery_failure_lem = (
    ground arith,
    ground arith,
    ground arith,
    elim (Bool-cases (leb max_attempts (suc r.attempts))) [
      | inl last ↦ dies (ground arith) (ground arith)
      | inr more ↦
          let bounds = backoff_bounds (suc r.attempts) (omega arith) (ground arith) in
          waits (ground arith) (ground arith) (ground (arith, bounds.0)) (ground (arith, bounds.1))
    ],
  )

-- Failures one after another, each with its time, jitter and error.
unfoldable pub fail_all : List (ℕ × ℕ × String) → NotificationOutbox → NotificationOutbox
fail_all [] r = r
fail_all ((now, jitter, error) ∷ more) r = fail_all more (mark_delivery_failure now jitter error r)

-- After any failures in a row, at least one, the attempts are counted and the row is dead exactly
-- if it has eight or more of them, otherwise pending.
pub fail_all_lem :
    (f : ℕ × ℕ × String) (fs : List (ℕ × ℕ × String)) (r : NotificationOutbox)
    → ((fail_all (f ∷ fs) r).attempts ≡ r.attempts + length (f ∷ fs))
      × ((fail_all (f ∷ fs) r).status
          ≡ (if leb max_attempts (r.attempts + length (f ∷ fs)) then dead else pending))
unfolding fail_all mark_delivery_failure
fail_all_lem (now, jitter, error) [] r = (ground arith, ground arith)
fail_all_lem (now, jitter, error) (g ∷ gs) r =
    let r' = mark_delivery_failure now jitter error r in
    let counted : r'.attempts ≡ suc r.attempts = ground arith in
    let (a, s) = fail_all_lem g gs r' in
    (
      ground (arith, a, counted),
      s ∙ ap (λ n. if leb max_attempts n then dead else pending) (ground (arith, counted)),
    )
