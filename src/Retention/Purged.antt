-- ===== src/Retention/Purged.antt =====
-- Which alert events `purge` of backend/app/services/retention.py deletes.
use k8s_alert_manager.Prelude.{
  count-eq-length-filter, length-map, String, any, str_eq, sym, subst, count, Bool-cases, inl, inr,
  ℕ, suc, Bool, true, false, ◌&&◌, List, if◌then◌else◌, ◌≡◌, refl, ap, ◌∙◌, not, Option, none,
  filter, length, arith,
}
use k8s_alert_manager.Runtime.{Runtime}
use k8s_alert_manager.Models.Alert.{AlertEvent}
use k8s_alert_manager.Exec.{Result, ok, err, overflow}
use k8s_alert_manager.Models.Db.{Db}
use k8s_alert_manager.Settings.{set_setting}
use k8s_alert_manager.Api.{log}
use k8s_alert_manager.Retention.{
  Windows, load_settings, is_purgeable, purgeable_events, delete_events, select_outbox,
  delete_outbox_rows, select_actions, delete_actions, select_audit_logs, delete_audit_logs,
  purge_scheduled_actions, purge_notification_outbox, purge_alert_events, purge_audit_logs,
  record_purge, purge, purge_with, is_representable, PurgeSummary,
}
use k8s_alert_manager.Retention.Batches.{DistinctRows, delete_batches_lem, delete_batches-frame}

module _ (now : ℕ) (w : Windows) where
  purge_alert_events_lem :
      (db : Db)
      → DistinctRows (λ e. e.id) (is_purgeable now w) db.events
      → ((purge_alert_events now w db).1.events
          ≡ filter (λ e. not (is_purgeable now w e)) db.events)
        × ((purge_alert_events now w db).0 ≡ length (purgeable_events now w db))
  unfolding purge_alert_events purgeable_events
  purge_alert_events_lem db d =
      delete_batches_lem (λ e. e.id) (is_purgeable now w) (λ db. db.events) (delete_events now w)
        (λ ids db. (refl, refl)) (suc (length (purgeable_events now w db))) db d (omega arith)

  actions-events : (db : Db) → (purge_scheduled_actions now w db).1.events ≡ db.events
  unfolding purge_scheduled_actions
  actions-events db =
      delete_batches-frame (λ db. db.events) (select_actions now w) (delete_actions now w)
        (λ ids db. refl) (suc (length (select_actions now w db))) db

  outbox-events : (db : Db) → (purge_notification_outbox now w db).1.events ≡ db.events
  unfolding purge_notification_outbox
  outbox-events db =
      delete_batches-frame (λ db. db.events) (select_outbox now w) (delete_outbox_rows now w)
        (λ ids db. refl) (suc (length (select_outbox now w db))) db

  audit-events : (db : Db) → (purge_audit_logs now w db).1.events ≡ db.events
  unfolding purge_audit_logs
  audit-events db =
      delete_batches-frame (λ db. db.events) (select_audit_logs now w) (delete_audit_logs now w)
        (λ ids db. refl) (suc (length (select_audit_logs now w db))) db

setting-events : (key value : String) (db : Db) → (set_setting key value db).events ≡ db.events
unfolding set_setting
setting-events key value db = elim (Bool-cases (any (λ s. str_eq s.key key) db.settings)) [
  | inl old ↦ rw old refl
  | inr new ↦ rw new refl
]

recorded-events :
    (rt : Runtime) (now : ℕ) (actor : Option ℕ) (db : Db)
    → (record_purge rt now actor db).events ≡ db.events
unfolding record_purge log
recorded-events rt now actor db =
    setting-events "retention.last_purge_at" (rt.isoformat now)
      (log now actor none "retention.purge" "retention" "purge" db).1

if_true :
    {es : List AlertEvent} (b : Bool) (xs ys : List AlertEvent)
    → b ≡ true
    → es ≡ xs
    → es ≡ (if b then xs else ys)
if_true b xs ys h e = rw h e

if_false :
    {es : List AlertEvent} (b : Bool) (xs ys : List AlertEvent)
    → b ≡ false
    → es ≡ ys
    → es ≡ (if b then xs else ys)
if_false b xs ys h e = rw h e

-- The cutoffs that are computed before the events are purged.
abbrev pub reaches_events : ℕ → Windows → Bool
reaches_events now w =
    is_representable now w.scheduled_actions_days
    && is_representable now w.notification_outbox_days
    && is_representable now w.alert_events_days
    && is_representable now w.test_alert_events_days

abbrev pub kept_events : ℕ → Windows → List AlertEvent → List AlertEvent
unfolding is_purgeable
kept_events now w es = filter (λ e. not (is_purgeable now w e)) es

-- What a purge with these windows has done to the events.
abbrev pub HasPurged : ℕ → Windows → Db → Result PurgeSummary × Db → Type 0
HasPurged now w db (ok summary, db') =
    ((reaches_events now w && is_representable now w.audit_log_days) ≡ true)
    × (db'.events ≡ kept_events now w db.events)
    × (summary.alert_events ≡ count (is_purgeable now w) db.events)
HasPurged now w db (err x, db') =
    (x ≡ overflow)
    × ((reaches_events now w && is_representable now w.audit_log_days) ≡ false)
    × (db'.events ≡ (if reaches_events now w then kept_events now w db.events else db.events))

module _ (rt : Runtime) (now : ℕ) (w : Windows) (actor : Option ℕ) (db : Db)
    (d : DistinctRows (λ e. e.id) (is_purgeable now w) db.events) where
  db1 : Db
  db1 = (purge_scheduled_actions now w db).1

  db2 : Db
  unfolding db1
  db2 = (purge_notification_outbox now w db1).1

  db3 : Db
  unfolding db2
  db3 = (purge_alert_events now w db2).1

  same2 : db2.events ≡ db.events
  unfolding db2 db1
  same2 = outbox-events now w db1 ∙ actions-events now w db

  gone :
      (db3.events ≡ kept_events now w db.events)
      × ((purge_alert_events now w db2).0 ≡ count (is_purgeable now w) db.events)
  unfolding db3 db2 db1 kept_events
  gone =
      let (left, deleted) =
        purge_alert_events_lem now w db2
          (subst (DistinctRows (λ e. e.id) (is_purgeable now w)) (sym same2) d) in
      (
        left ∙ ap (filter (λ e. not (is_purgeable now w e))) same2,
        deleted
            ∙ length-map (λ e. e.id) (filter (is_purgeable now w) db2.events)
            ∙ sym (count-eq-length-filter (is_purgeable now w) db2.events)
            ∙ ap (count (is_purgeable now w)) same2,
      )

  purge_with-HasPurged : HasPurged now w db (purge_with rt now w actor db)
  unfolding purge_with db3 db2 db1 kept_events
  purge_with-HasPurged = elim (Bool-cases (is_representable now w.scheduled_actions_days)) [
    | inr a ↦ rw a (
      refl,
      ground (arith, a),
      if_false (reaches_events now w) (kept_events now w db.events) db.events (ground (arith, a))
          refl,
    )
    | inl a ↦ elim (Bool-cases (is_representable now w.notification_outbox_days)) [
      | inr b ↦
          rw (a, b)
            (
              refl,
              ground (arith, b),
              if_false (reaches_events now w) (kept_events now w db.events) db.events
                  (ground (arith, b)) (actions-events now w db),
            )
      | inl b ↦ elim (Bool-cases (is_representable now w.alert_events_days)) [
        | inr c ↦
            rw (a, b, c)
              (
                refl,
                ground (arith, c),
                if_false (reaches_events now w) (kept_events now w db.events) db.events
                    (ground (arith, c)) same2,
              )
        | inl c ↦ elim (Bool-cases (is_representable now w.test_alert_events_days)) [
          | inr t ↦
              rw (a, b, c, t)
                (
                  refl,
                  ground (arith, t),
                  if_false (reaches_events now w) (kept_events now w db.events) db.events
                      (ground (arith, t)) same2,
                )
          | inl t ↦ elim (Bool-cases (is_representable now w.audit_log_days)) [
            | inr l ↦
                rw (a, b, c, t, l)
                  (
                    refl,
                    ground (arith, l),
                    if_true (reaches_events now w) (kept_events now w db.events) db.events
                        (ground (arith, a, b, c, t)) gone.0,
                  )
            | inl l ↦
                rw (a, b, c, t, l)
                  (
                    ground (arith, a, b, c, t, l),
                    recorded-events rt now actor (purge_audit_logs now w db3).1
                        ∙ audit-events now w db3
                        ∙ gone.0,
                    gone.1,
                  )
          ]
        ]
      ]
    ]
  ]

-- For any number of events with distinct ids, and with the windows that are the settings at the start:
-- a purge is answered exactly when each cutoff is a datetime, and then it has deleted exactly the alert
-- events that are past their window, resolved ones that are no test, and tests, firing or not; the others
-- stay in their order, and the summary counts the deleted. Otherwise it raises an OverflowError, and the
-- events are as they were, or purged in the same way when only the cutoff of the audit log is not one.
pub purge-events :
    (rt : Runtime) (now : ℕ) (actor : Option ℕ) (db : Db)
    → DistinctRows (λ e. e.id) (is_purgeable now (load_settings rt db)) db.events
    → HasPurged now (load_settings rt db) db (purge rt now actor db)
unfolding purge
purge-events rt now actor db d = purge_with-HasPurged rt now (load_settings rt db) actor db d
