-- ===== src/Staging.antt =====
-- `stage_outbox_row` of backend/app/services/routing.py and the storm control in front of it.
pub mod Keys
pub mod Storm
use k8s_alert_manager.Prelude.{
  ℕ, zero, suc, ◌+◌, ◌*◌, Bool, true, false, not, ◌&&◌, ◌||◌, Option, none, some, List, [], ◌∷◌,
  ◌++◌, any, count, leb, ltb, ◌==◌, if◌then◌else◌, is_some,
}
use k8s_alert_manager.Models.Channel.{Channel, DigestMode, auto, always}
use k8s_alert_manager.Models.Outbox.{
  Trigger, trigger_eq, Payload, NotificationOutbox, Status, is_digested,
}
use k8s_alert_manager.Models.Outbox
use k8s_alert_manager.Models.Scheduled.{ScheduledAction, Kind, is_digest_flush}
use k8s_alert_manager.Models.Scheduled
use k8s_alert_manager.Models.Db.{Db}
use k8s_alert_manager.Exec.{
  Result, ok, err, Exec, multiple_results, overflow, pure, raise, modify, ◌>>=◌, ◌>>◌,
}

abbrev pub minutes : ℕ → ℕ
minutes n = n * 60000000

abbrev pub digest_rate_window : ℕ
digest_rate_window = 3600000000

-- column == value, where NULL equals nothing
abbrev pub is_value : ℕ → Option ℕ → Bool
is_value n none = false
is_value n (some m) = m == n

-- created_at >= now - window, which is created_at + window >= now
unfoldable pub counts_toward_rate : ℕ → Channel → NotificationOutbox → Bool
counts_toward_rate now channel r =
    r.channel_id == channel.id && not r.is_digest && leb now (r.created_at + digest_rate_window)

unfoldable pub parks : DigestMode → Option ℕ → ℕ → Bool
parks always limit sent = true
parks auto (some (suc limit)) sent = leb (suc limit) sent
parks _ _ _ = false

unfoldable pub channel_needs_parking : Db → ℕ → Channel → Bool
unfolding parks counts_toward_rate
channel_needs_parking db now channel =
    parks channel.digest_mode channel.rate_limit_per_hour
      (count (counts_toward_rate now channel) db.outbox)

-- scalar_one_or_none is not None: more than one row is MultipleResultsFound.
unfoldable pub found_one : ℕ → Exec Bool
found_one zero = pure false
found_one (suc zero) = pure true
found_one _ = raise multiple_results

unfoldable pub pending_flush : ℕ → ScheduledAction → Bool
pending_flush channel_id a =
    is_digest_flush a.kind && is_value channel_id a.channel_id && Scheduled.is_pending a.status

abbrev pub add_action : ScheduledAction → Db → Db
add_action a db = record db {
  actions = db.actions ++ a ∷ [];
  next_action_id = suc db.next_action_id;
}

-- datetime.max, in microseconds from datetime.min
abbrev pub datetime_max : ℕ
datetime_max = 315537897599999999

-- The addition that gives `due_at` raises an OverflowError where no `datetime` is that late.
abbrev pub add_due : ScheduledAction → Exec (Unit {0})
add_due action db =
    if ltb datetime_max action.due_at then (err overflow, db) else (ok tt, add_action action db)

abbrev pub flush_action : ℕ → ℕ → Channel → ScheduledAction
flush_action id now channel = record {
  id = id;
  kind = Kind.digest_flush;
  alert_event_id = none;
  routing_rule_id = none;
  channel_id = some channel.id;
  due_at = now + minutes channel.digest_window_minutes;
  status = Scheduled.pending;
  processed_at = none;
}

abbrev pub add_flush : ℕ → Channel → Bool → Exec (Unit {0})
add_flush now channel true db = (ok tt, db)
add_flush now channel false db = add_due (flush_action db.next_action_id now channel) db

unfoldable pub ensure_digest_flush_scheduled : ℕ → Channel → Exec (Unit {0})
unfolding found_one pending_flush is_digest_flush Scheduled.is_pending
ensure_digest_flush_scheduled now channel db =
    (do
      existing ← found_one (count (pending_flush channel.id) db.actions)
      add_flush now channel existing)
      db

-- The unique constraint (alert_event_id, channel_id, trigger); a NULL event never conflicts.
unfoldable pub has_key : ℕ → ℕ → Trigger → NotificationOutbox → Bool
has_key event_id channel_id trigger r =
    is_value event_id r.alert_event_id && r.channel_id == channel_id && trigger_eq r.trigger trigger

abbrev pub new_row : ℕ → ℕ → ℕ → Option ℕ → ℕ → ℕ → Trigger → Payload → Status → NotificationOutbox
new_row id now event_id rule_id channel_id team_id trigger payload status = record {
  id = id;
  alert_event_id = some event_id;
  routing_rule_id = rule_id;
  channel_id = channel_id;
  team_id = team_id;
  trigger = trigger;
  payload = payload;
  status = status;
  attempts = 0;
  is_digest = false;
  digested_into_id = none;
  next_attempt_at = now;
  locked_by = none;
  locked_at = none;
  last_error = none;
  created_at = now;
  delivered_at = none;
}

abbrev pub add_row : NotificationOutbox → Db → Db
add_row r db = record db { outbox = db.outbox ++ r ∷ []; next_outbox_id = suc db.next_outbox_id }

-- The savepoint: an INSERT that breaks the unique constraint, or the NOT NULL of `team_id`, is
-- rolled back and reported as a row that was there already.
unfoldable pub stage_outbox_row :
    ℕ → ℕ → Option ℕ → Channel → Option ℕ → Trigger → Payload → Exec Bool
unfolding channel_needs_parking has_key ensure_digest_flush_scheduled
stage_outbox_row now event_id rule_id channel none trigger payload db = (ok false, db)
stage_outbox_row now event_id rule_id channel (some team_id) trigger payload db =
    let should_park = channel_needs_parking db now channel in
    let status = if should_park then Status.digested else Status.pending in
    let row =
      new_row db.next_outbox_id now event_id rule_id channel.id team_id trigger payload status in
    if any (has_key event_id channel.id trigger) db.outbox
    then (ok false, db)
    else (do
      modify (add_row row)
      if should_park then ensure_digest_flush_scheduled now channel else pure tt
      pure true)
        db
