-- ===== src/Worker/Deliver.antt =====
-- `_mark_dead`, `_mark_delivery_failure`, `deliver` and `run_tick` of backend/app/worker/outbox.py.
use Prim.Native.String.{◌++◌ as ◌<>◌}
use k8s_alert_manager.Prelude.{
  ℕ, suc, ◌+◌, ◌*◌, ◌^◌, min, String, Bool, false, not, ◌&&◌, Option, none, some, List, [], ◌∷◌,
  length, leb, ◌==◌, is_some, if◌then◌else◌,
}
use k8s_alert_manager.Text.{take_text}
use k8s_alert_manager.Models.Alert.{is_firing}
use k8s_alert_manager.Models.Routing.{RoutingRule}
use k8s_alert_manager.Models.Channel.{Channel}
use k8s_alert_manager.Models.Outbox.{
  Trigger, transition, NotificationOutbox, pending, delivered, dead,
}
use k8s_alert_manager.Models.Db.{Db, get_outbox, get_channel, set_outbox}
use k8s_alert_manager.Exec.{Exec, Result, ok, err, pure, modify, ◌>>◌}
use k8s_alert_manager.Route.Timers.{or_zero, schedule_renotify}
use k8s_alert_manager.Worker.Claim.{claim_batch}
use k8s_alert_manager.Worker.Attempt.{
  Channels, Config, Attempt, sent, failure, usable, invalid, failing, attempt, get_row_rule,
}

abbrev pub max_attempts : ℕ
max_attempts = 8

abbrev pub seconds : ℕ → ℕ
seconds n = n * 1000000

-- min(BASE_BACKOFF_SECONDS * 2**attempts, MAX_BACKOFF_SECONDS)
unfoldable pub backoff : ℕ → ℕ
backoff attempts = min (30 * 2 ^ attempts) 1800

unfoldable pub mark_dead : String → NotificationOutbox → NotificationOutbox
unfolding take_text
mark_dead reason r = record r {
  status = dead;
  last_error = some (take_text 500 reason);
  locked_by = none;
  locked_at = none;
}

-- `jitter` is the drawn part of a second up to JITTER_MAX_SECONDS, in microseconds.
unfoldable pub mark_delivery_failure : ℕ → ℕ → String → NotificationOutbox → NotificationOutbox
unfolding take_text backoff
mark_delivery_failure now jitter error r =
    let attempts = suc r.attempts in
    let failed = record r {
      attempts = attempts;
      last_error = some (take_text 500 error);
      locked_by = none;
      locked_at = none;
    } in
    if leb max_attempts attempts then record failed { status = dead } else record failed {
      status = pending;
      next_attempt_at = now + (seconds (backoff attempts) + jitter);
    }

abbrev pub note_or : Option String → Option String → Option String
note_or none old = old
note_or (some note) old = some (take_text 500 note)

unfoldable pub mark_delivered : ℕ → Option String → NotificationOutbox → NotificationOutbox
unfolding take_text
mark_delivered now note r = record r {
  status = delivered;
  delivered_at = some now;
  locked_by = none;
  locked_at = none;
  last_error = note_or note r.last_error;
}

abbrev pub is_firing_trigger : Trigger → Bool
is_firing_trigger (transition s) = is_firing s
is_firing_trigger _ = false

-- The renotify timer behind a delivered firing row; a row with that trigger has an event.
unfoldable pub renotify_after : ℕ → NotificationOutbox → Option RoutingRule → Exec (Unit {0})
renotify_after now r none = pure tt
renotify_after now r (some rule) = elim r.alert_event_id [
  | none ↦ pure tt
  | some event_id ↦
      if is_firing_trigger r.trigger && not (or_zero rule.renotify_interval_minutes == 0)
      then schedule_renotify now event_id rule
      else pure tt
]

-- Why the row is dead before anything is sent, if it is.
unfoldable pub refusal : Channels → Option Channel → Option String
refusal ch none = some "channel disabled or deleted"
refusal ch (some channel) =
    if is_some channel.deleted_at
    then some "channel deleted"
    else if not channel.enabled
    then some "channel disabled or deleted"
    else if not (ch.known channel.type)
    then some ("unknown channel type '" <> channel.type <> "'")
    else none

module _ (ch : Channels) (now jitter : ℕ) (r : NotificationOutbox) where
  -- The `else` of the try block, or its handler.
  unfoldable pub settle : Attempt → Exec (Unit {0})
  unfolding mark_delivered mark_delivery_failure renotify_after schedule_renotify is_firing
  settle (failure error) = modify (set_outbox r.id (mark_delivery_failure now jitter error))
  settle (sent note) = λ db.
      (do
        modify (set_outbox r.id (mark_delivered now note))
        renotify_after now r (get_row_rule db r))
        db

  -- With what the stored configuration turns out to be.
  abbrev pub on_config : Channel → Config → Exec (Unit {0})
  on_config channel (invalid error) =
      modify (set_outbox r.id (mark_dead ("invalid channel config: " <> error)))
  on_config channel (failing error) =
      modify (set_outbox r.id (mark_delivery_failure now jitter error))
  on_config channel usable = λ db. settle (attempt ch db channel r) db

  abbrev pub configured : Channel → Exec (Unit {0})
  configured channel = on_config channel (ch.config channel.type channel.config_encrypted)

  abbrev pub to_channel : Option Channel → Exec (Unit {0})
  to_channel none = pure tt
  to_channel (some channel) = configured channel

  abbrev pub refuse_or : Option String → Exec (Unit {0}) → Exec (Unit {0})
  refuse_or (some reason) go = modify (set_outbox r.id (mark_dead reason))
  refuse_or none go = go

  unfoldable pub deliver : Exec (Unit {0})
  unfolding mark_dead refusal settle attempt
  deliver db =
      let channel = get_channel db r.channel_id in
      refuse_or (refusal ch channel) (to_channel channel) db

-- A session of its own for each row: what was staged before an exception is rolled back.
abbrev pub or_rollback : Db → Result (Unit {0}) × Db → Db
or_rollback db (ok done, db') = db'
or_rollback db (err e, db') = db

-- What the outside does in one tick: the answers of the channels, the clock and the jitter.
pub record Turn : Type 0 where
  pub channels : Channels
  pub now : ℕ
  pub jitter : ℕ

abbrev pub deliver_found : Turn → Option NotificationOutbox → Db → Db
deliver_found turn none db = db
deliver_found turn (some r) db = or_rollback db (deliver turn.channels turn.now turn.jitter r db)

unfoldable pub deliver_one : Turn → ℕ → Db → Db
unfolding deliver
deliver_one turn id db = deliver_found turn (get_outbox db id) db

unfoldable pub deliver_all : (ℕ → Turn) → List ℕ → Db → Db
unfolding deliver_one
deliver_all turns [] db = db
deliver_all turns (id ∷ ids) db = deliver_all turns ids (deliver_one (turns id) id db)

-- The number of claimed rows, and the database afterwards.
unfoldable pub run_tick : (ℕ → Turn) → String → ℕ → ℕ → Db → ℕ × Db
unfolding claim_batch deliver_all
run_tick turns worker now limit db =
    let (ids, claimed) = claim_batch worker now limit db in
    (length ids, deliver_all turns ids claimed)
