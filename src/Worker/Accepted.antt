-- ===== src/Worker/Accepted.antt =====
-- When a delivery succeeds: `deliver` of backend/app/worker/outbox.py in the session of its row.
use Prim.Native.String.{◌++◌ as ◌<>◌}
use k8s_alert_manager.Prelude.{ℕ, String, ◌≡◌, Option, none, some}
use k8s_alert_manager.Models.Outbox.{NotificationOutbox, delivered}
use k8s_alert_manager.Models.Channel.{Channel}
use k8s_alert_manager.Models.Db.{Db, get_channel, get_outbox, set_outbox}
use k8s_alert_manager.Exec.{ok}
use k8s_alert_manager.Worker.Attempt.{usable, Attempt, sent, attempt, get_row_rule}
use k8s_alert_manager.Worker.Deliver.{mark_delivered, renotify_after, refusal, Turn}

-- The row with this id is delivered.
abbrev pub IsDelivered : ℕ → Db → Type 0
IsDelivered id db = (x : NotificationOutbox) × (get_outbox db id ≡ some x) × (x.status ≡ delivered)

module _ (turn : Turn) (r : NotificationOutbox) (db : Db) where
  -- The channel may be used and accepts the message, and the renotification behind it is scheduled.
  abbrev pub TakenBy : Channel → Type 0
  TakenBy channel =
      (refusal turn.channels (some channel) ≡ none)
      × (turn.channels.config channel.type channel.config_encrypted ≡ usable)
      × ((note : Option String) × (attempt turn.channels db channel r ≡ sent note)
          × ((renotify_after turn.now r (get_row_rule db r)
                (set_outbox r.id (mark_delivered turn.now note) db)).0
              ≡ ok tt))

  abbrev pub IsTaken : Type 0
  IsTaken = (channel : Channel) × (get_channel db r.channel_id ≡ some channel) × TakenBy channel
