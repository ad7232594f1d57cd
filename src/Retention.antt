-- ===== src/Retention.antt =====
-- backend/app/services/retention.py: the purge of old rows, in batches of a transaction each.
pub mod Batches
pub mod Purged
use k8s_alert_manager.Prelude.{
  ℕ, zero, suc, ◌+◌, ◌*◌, String, Bool, true, false, not, ◌&&◌, ◌||◌, Option, none, some, List, [],
  ◌∷◌, map, filter, count, elem, length, take, leb, ltb, is_empty, if◌then◌else◌,
}
use k8s_alert_manager.Runtime.{Runtime}
use k8s_alert_manager.Models.Alert.{AlertEvent, is_resolved}
use k8s_alert_manager.Models.Outbox.{NotificationOutbox, Status}
use k8s_alert_manager.Models.Scheduled.{ScheduledAction}
use k8s_alert_manager.Models.Scheduled
use k8s_alert_manager.Models.Audit.{AuditLog}
use k8s_alert_manager.Models.Db.{Db}
use k8s_alert_manager.Exec.{Exec, ok, overflow, pure, raise, modify, ◌>>=◌, ◌>>◌}
use k8s_alert_manager.Settings.{get_int_setting, set_setting}
use k8s_alert_manager.Api.{log}

abbrev pub batch_size : ℕ
batch_size = 1000

-- SETTING_DEFAULTS and the keys, in days
pub record Windows : Type 0 where
  pub alert_events_days : ℕ
  pub test_alert_events_days : ℕ
  pub notification_outbox_days : ℕ
  pub audit_log_days : ℕ
  pub scheduled_actions_days : ℕ

unfoldable pub load_settings : Runtime → Db → Windows
unfolding get_int_setting
load_settings rt db = record {
  alert_events_days = get_int_setting rt db "retention.alert_events_days" 90;
  test_alert_events_days = get_int_setting rt db "retention.test_alert_events_days" 7;
  notification_outbox_days = get_int_setting rt db "retention.notification_outbox_days" 30;
  audit_log_days = get_int_setting rt db "retention.audit_log_days" 365;
  scheduled_actions_days = get_int_setting rt db "retention.scheduled_actions_days" 7;
}

pub record PurgeSummary : Type 0 where
  pub alert_events : ℕ
  pub notification_outbox : ℕ
  pub scheduled_actions : ℕ
  pub audit_logs : ℕ

-- Whether `now - timedelta(days=days)` is not before datetime.min, which is 0.
abbrev pub is_representable : ℕ → ℕ → Bool
is_representable now days = leb (days * 86400000000) now

-- The subtraction raises an OverflowError otherwise.
abbrev pub subtract_window : ℕ → ℕ → Exec (Unit {0})
subtract_window now days = if is_representable now days then pure tt else raise overflow

-- `t < now - timedelta(days=days)`, where the right side is a datetime
abbrev pub older_than : ℕ → ℕ → ℕ → Bool
older_than now days t = ltb (t + days * 86400000000) now

-- The number of deleted rows and the database, for a statement that deletes by ids and may delete
-- more; `fuel` bounds the number of batches.
unfoldable pub delete_batches :
    (select_ids : Db → List ℕ) → (delete_by_ids : List ℕ → Db → ℕ × Db) → ℕ → Db → ℕ × Db
delete_batches select_ids delete_by_ids zero db = (0, db)
delete_batches select_ids delete_by_ids (suc fuel) db =
    let ids = take batch_size (select_ids db) in
    let (more, db') = delete_by_ids ids db in
    let (rest, db'') = delete_batches select_ids delete_by_ids fuel db' in
    if is_empty ids
    then (0, db)
    else if ltb (length ids) batch_size
    then (length ids + more, db')
    else (length ids + more + rest, db'')

abbrev pub id_in : List ℕ → Option ℕ → Bool
id_in ids none = false
id_in ids (some n) = elem n ids

-- digested_into_id is ON DELETE SET NULL.
abbrev pub unlinked : List ℕ → NotificationOutbox → NotificationOutbox
unlinked ids r = if id_in ids r.digested_into_id then record r { digested_into_id = none } else r

abbrev pub delete_outbox : (NotificationOutbox → Bool) → Db → Db
delete_outbox p db =
    let gone = map (λ r. r.id) (filter p db.outbox) in
    record db { outbox = map (unlinked gone) (filter (λ r. not (p r)) db.outbox) }

module _ (now : ℕ) (w : Windows) where
  abbrev pub is_purgeable : AlertEvent → Bool
  unfolding is_resolved
  is_purgeable e =
      (not e.is_test
        && is_resolved e.status
        && older_than now w.alert_events_days e.last_received_at)
      || (e.is_test && older_than now w.test_alert_events_days e.last_received_at)

  abbrev pub purgeable_events : Db → List ℕ
  unfolding is_purgeable
  purgeable_events db = map (λ e. e.id) (filter is_purgeable db.events)

  -- The outbox rows of the events go first; comments and timers go by ON DELETE CASCADE.
  abbrev pub delete_events : List ℕ → Db → ℕ × Db
  delete_events ids db =
      let db' = delete_outbox (λ r. id_in ids r.alert_event_id) db in
      (
        0,
        record db' {
          events = filter (λ e. not (elem e.id ids)) db'.events;
          comments = filter (λ c. not (elem c.alert_event_id ids)) db'.comments;
          actions = filter (λ a. not (id_in ids a.alert_event_id)) db'.actions;
        },
      )

  unfoldable pub purge_alert_events : Db → ℕ × Db
  unfolding delete_batches is_purgeable purgeable_events
  purge_alert_events db =
      delete_batches purgeable_events delete_events (suc (length (purgeable_events db))) db

  abbrev pub is_final : Status → Bool
  is_final Status.delivered = true
  is_final Status.dead = true
  is_final _ = false

  abbrev pub select_outbox : Db → List ℕ
  select_outbox db =
      map (λ r. r.id)
        (filter (λ r. is_final r.status && older_than now w.notification_outbox_days r.created_at)
          db.outbox)

  -- The rows that the batch's digests stand for go too, and are counted.
  abbrev pub delete_outbox_rows : List ℕ → Db → ℕ × Db
  delete_outbox_rows ids db =
      let db' = delete_outbox (λ r. id_in ids r.digested_into_id) db in
      (count (λ r. id_in ids r.digested_into_id) db.outbox, delete_outbox (λ r. elem r.id ids) db')

  unfoldable pub purge_notification_outbox : Db → ℕ × Db
  unfolding delete_batches
  purge_notification_outbox db =
      delete_batches select_outbox delete_outbox_rows (suc (length (select_outbox db))) db

  abbrev pub is_over : Scheduled.Status → Bool
  is_over Scheduled.done = true
  is_over Scheduled.cancelled = true
  is_over _ = false

  abbrev pub processed_before : Option ℕ → Bool
  processed_before none = false
  processed_before (some t) = older_than now w.scheduled_actions_days t

  abbrev pub select_actions : Db → List ℕ
  select_actions db =
      map (λ a. a.id) (filter (λ a. is_over a.status && processed_before a.processed_at) db.actions)

  abbrev pub delete_actions : List ℕ → Db → ℕ × Db
  delete_actions ids db = (0, record db { actions = filter (λ a. not (elem a.id ids)) db.actions })

  abbrev pub select_audit_logs : Db → List ℕ
  select_audit_logs db =
      map (λ l. l.id) (filter (λ l. older_than now w.audit_log_days l.created_at) db.audit_logs)

  abbrev pub delete_audit_logs : List ℕ → Db → ℕ × Db
  delete_audit_logs ids db =
      (0, record db { audit_logs = filter (λ l. not (elem l.id ids)) db.audit_logs })

  unfoldable pub purge_scheduled_actions : Db → ℕ × Db
  unfolding delete_batches
  purge_scheduled_actions db =
      delete_batches select_actions delete_actions (suc (length (select_actions db))) db

  unfoldable pub purge_audit_logs : Db → ℕ × Db
  unfolding delete_batches
  purge_audit_logs db =
      delete_batches select_audit_logs delete_audit_logs (suc (length (select_audit_logs db))) db

module _ (rt : Runtime) (now : ℕ) where
  -- The audit row and retention.last_purge_at, in one transaction.
  abbrev pub record_purge : Option ℕ → Db → Db
  unfolding log set_setting
  record_purge actor_user_id db =
      let (r, db') = log now actor_user_id none "retention.purge" "retention" "purge" db in
      set_setting "retention.last_purge_at" (rt.isoformat now) db'

  -- One table, in transactions of its own.
  abbrev pub purge_table : (Db → ℕ × Db) → Exec ℕ
  purge_table delete_rows db = let (n, db') = delete_rows db in (ok n, db')

  -- With the settings loaded. What was purged before an exception stays purged.
  unfoldable pub purge_with : Windows → Option ℕ → Exec PurgeSummary
  unfolding purge_scheduled_actions purge_notification_outbox purge_alert_events purge_audit_logs
      record_purge
  purge_with w actor_user_id = do
    subtract_window now w.scheduled_actions_days
    actions ← purge_table (purge_scheduled_actions now w)
    subtract_window now w.notification_outbox_days
    outbox ← purge_table (purge_notification_outbox now w)
    subtract_window now w.alert_events_days
    subtract_window now w.test_alert_events_days
    events ← purge_table (purge_alert_events now w)
    subtract_window now w.audit_log_days
    logs ← purge_table (purge_audit_logs now w)
    modify (record_purge actor_user_id)
    pure (record {
      alert_events = events;
      notification_outbox = outbox;
      scheduled_actions = actions;
      audit_logs = logs;
    })

  unfoldable pub purge : Option ℕ → Exec PurgeSummary
  unfolding load_settings purge_with
  purge actor_user_id db = purge_with (load_settings rt db) actor_user_id db
