-- ===== src/Worker/Settled.antt =====
-- `deliver` of backend/app/worker/outbox.py never leaves its row in progress when it returns.
use k8s_alert_manager.Prelude.{
  ℕ, zero, suc, ◌+◌, count, Bool, not, ◌&&◌, ltb, true, false, Bool-cases, if◌then◌else◌, String,
  ◌≡◌, refl, ◌⊎◌, inl, inr, Option, Option-cases, none, some, ◌==◌, ==_iff, All, All-updated, arith,
}
use k8s_alert_manager.Models.Routing.{RoutingRule}
use k8s_alert_manager.Models.Channel.{Channel}
use k8s_alert_manager.Models.Outbox.{NotificationOutbox, pending, delivered, dead}
use k8s_alert_manager.Models.Db.{Db, get_channel, set_outbox}
use k8s_alert_manager.Exec.{Error, multiple_results, overflow, Result, ok, err, pure, ◌>>=◌}
use k8s_alert_manager.Models.Scheduled.{Kind, is_renotify}
use k8s_alert_manager.Staging.{minutes, datetime_max, found_one}
use k8s_alert_manager.Route.Timers.{
  or_zero, pending_timer, add_timer, schedule_once, schedule_renotify,
}
use k8s_alert_manager.Worker.Attempt.{
  Channels, Config, usable, invalid, failing, Attempt, sent, failure, attempt, get_row_rule,
}
use k8s_alert_manager.Worker.Deliver.{
  mark_dead, mark_delivered, mark_delivery_failure, renotify_after, is_firing_trigger, settle,
  deliver, refusal, refuse_or, to_channel, on_config, configured,
}
use k8s_alert_manager.Worker.Retry.{Failed, dies, waits, mark_delivery_failure_lem}
use k8s_alert_manager.Worker.Touched.{outbox-renotify}

-- Delivered, waiting for a retry, or dead; and nobody's lock is left on it.
pub record IsSettled (r : NotificationOutbox) : Type 0 where
  pub status : (r.status ≡ delivered) ⊎ (r.status ≡ pending) ⊎ (r.status ≡ dead)
  pub unlocked : r.locked_by ≡ none
  pub no_lease : r.locked_at ≡ none

abbrev pub SettledAt : ℕ → Db → Type 0
SettledAt id db = All (λ r. r.id ≡ id → IsSettled r) db.outbox

-- MultipleResultsFound or an OverflowError.
abbrev pub IsRenotifyError : Error → Type 0
IsRenotifyError e = (e ≡ multiple_results) ⊎ (e ≡ overflow)

-- The answer of a call that returned, or an exception of the renotification.
abbrev pub Returned : ℕ → Result (Unit {0}) × Db → Type 0
Returned id (ok done, db) = SettledAt id db
Returned id (err e, db) = IsRenotifyError e

set_outbox-Settled :
    (id : ℕ) (f : NotificationOutbox → NotificationOutbox) (db : Db)
    → ((r : NotificationOutbox) → IsSettled (f r))
    → SettledAt id (set_outbox id f db)
set_outbox-Settled id f db h =
    All-updated _ (λ r. r.id == id) f db.outbox (λ r e same. h r)
      (λ r e same. absurd (ground (arith, (==_iff r.id id).1 same)))

failed-IsSettled :
    (now jitter : ℕ) (error : String) (r : NotificationOutbox)
    → IsSettled (mark_delivery_failure now jitter error r)
failed-IsSettled now jitter error r =
    let (counted, unlocked, no_lease, how) = mark_delivery_failure_lem now jitter error r in
    record { status = of_how how; unlocked = unlocked; no_lease = no_lease }
  where
    of_how :
        {r' : NotificationOutbox}
        → Failed now jitter r r'
        → (r'.status ≡ delivered) ⊎ (r'.status ≡ pending) ⊎ (r'.status ≡ dead)
    of_how (dies h s) = inr (inr s)
    of_how (waits h s a b) = inr (inl s)

scheduling-error :
    (now event_id : ℕ) (rule : RoutingRule) (db : Db) (e : Error)
    → (schedule_renotify now event_id rule db).0 ≡ err e
    → IsRenotifyError e
unfolding schedule_renotify schedule_once found_one
scheduling-error now event_id rule db e h =
    by_count (count (pending_timer is_renotify event_id rule.id) db.actions) h
  where
    due : ℕ
    due = now + minutes (or_zero rule.renotify_interval_minutes)

    by_count :
        (n : ℕ)
        → ((do existing ← found_one n; add_timer Kind.renotify event_id rule.id due existing) db).0
          ≡ err e
        → IsRenotifyError e
    by_count zero k = elim (Bool-cases (ltb datetime_max due)) [
      | inl late ↦ inr (ground (arith, rw late at k))
      | inr fits ↦ absurd (ground (arith, rw fits at k))
    ]
    by_count (suc zero) k = absurd (ground (arith, k))
    by_count (suc (suc n)) k = inl (ground (arith, k))

renotify-error :
    (now : ℕ) (r : NotificationOutbox) (rule : Option RoutingRule) (db : Db) (e : Error)
    → (renotify_after now r rule db).0 ≡ err e
    → IsRenotifyError e
unfolding renotify_after schedule_renotify
renotify-error now r none db e h = absurd (ground arith)
renotify-error now r (some rule) db e h = elim (Option-cases r.alert_event_id) [
  | inl gone ↦ absurd (ground (arith, rw gone at h))
  | inr (event_id, found) ↦
      by_due (is_firing_trigger r.trigger && not (or_zero rule.renotify_interval_minutes == 0))
        event_id (rw found at h)
]
  where
    by_due :
        (b : Bool) (event_id : ℕ)
        → ((if b then schedule_renotify now event_id rule else pure tt) db).0 ≡ err e
        → IsRenotifyError e
    by_due true event_id k = scheduling-error now event_id rule db e k
    by_due false event_id k = absurd (ground (arith, k))

renotify-Returned :
    (now id : ℕ) (r : NotificationOutbox) (rule : Option RoutingRule) (db : Db)
    → SettledAt id db
    → Returned id (renotify_after now r rule db)
renotify-Returned now id r rule db h =
    by_result (renotify_after now r rule db) (outbox-renotify now r rule db)
      (renotify-error now r rule db)
  where
    by_result :
        (res : Result (Unit {0}) × Db)
        → res.1.outbox ≡ db.outbox
        → ((e : Error) → res.0 ≡ err e → IsRenotifyError e)
        → Returned id res
    by_result (ok done, db') same raises = rw same h
    by_result (err e, db') same raises = raises e refl

module _ (ch : Channels) (now jitter : ℕ) (r : NotificationOutbox) (db : Db) where
  dead-Settled : (reason : String) → SettledAt r.id (set_outbox r.id (mark_dead reason) db)
  dead-Settled reason = set_outbox-Settled r.id (mark_dead reason) db (λ x.
      unfold mark_dead in record { status = inr (inr refl); unlocked = refl; no_lease = refl })

  failure-Settled :
      (error : String)
      → SettledAt r.id (set_outbox r.id (mark_delivery_failure now jitter error) db)
  failure-Settled error =
      set_outbox-Settled r.id (mark_delivery_failure now jitter error) db
        (λ x. failed-IsSettled now jitter error x)

  settle-Returned : (a : Attempt) → Returned r.id (settle ch now jitter r a db)
  unfolding settle
  settle-Returned (failure error) = failure-Settled error
  settle-Returned (sent note) =
      renotify-Returned now r.id r (get_row_rule db r)
        (set_outbox r.id (mark_delivered now note) db)
        (set_outbox-Settled r.id (mark_delivered now note) db (λ x.
          unfold mark_delivered in record { status = inl refl; unlocked = refl; no_lease = refl }))

  configured-Returned : (channel : Channel) → Returned r.id (configured ch now jitter r channel db)
  configured-Returned channel = by_config (ch.config channel.type channel.config_encrypted)
    where
      by_config : (c : Config) → Returned r.id (on_config ch now jitter r channel c db)
      by_config (invalid error) = dead-Settled _
      by_config (failing error) = failure-Settled error
      by_config usable = settle-Returned (attempt ch db channel r)

  -- When `deliver` returns, every row with the id of the row it was given is delivered, pending or
  -- dead and carries no lock, whatever the channel, the configuration and the clock answer; the only
  -- exceptions that it raises are the MultipleResultsFound and the OverflowError of scheduling the
  -- renotification.
  pub deliver-Settled : Returned r.id (deliver ch now jitter r db)
  unfolding deliver refusal
  deliver-Settled = by_channel (get_channel db r.channel_id)
    where
      by_refusal :
          (o : Option String) (channel : Channel)
          → Returned r.id
              (refuse_or ch now jitter r o (to_channel ch now jitter r (some channel)) db)
      by_refusal (some reason) channel = dead-Settled reason
      by_refusal none channel = configured-Returned channel

      by_channel :
          (c : Option Channel)
          → Returned r.id
              (refuse_or ch now jitter r (refusal ch c) (to_channel ch now jitter r c) db)
      by_channel none = dead-Settled "channel disabled or deleted"
      by_channel (some channel) = by_refusal (refusal ch (some channel)) channel
