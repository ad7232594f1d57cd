-- ===== src/Models/Scheduled.antt =====
-- backend/app/models/scheduled.py: escalation, renotify and digest flush timers.
use k8s_alert_manager.Prelude.{ℕ, String, Bool, true, false, Option}

pub data Kind : Type 0 where
  escalation renotify digest_flush : Kind
  unknown : String → Kind

pub data Status : Type 0 where
  pending claimed done cancelled : Status

pub record ScheduledAction : Type 0 where
  pub id : ℕ
  pub kind : Kind
  pub alert_event_id : Option ℕ
  pub routing_rule_id : Option ℕ
  pub channel_id : Option ℕ
  pub due_at : ℕ
  pub status : Status
  pub processed_at : Option ℕ

unfoldable pub is_pending : Status → Bool
is_pending pending = true
is_pending _ = false

unfoldable pub is_claimed : Status → Bool
is_claimed claimed = true
is_claimed _ = false

unfoldable pub is_escalation : Kind → Bool
is_escalation escalation = true
is_escalation _ = false

unfoldable pub is_renotify : Kind → Bool
is_renotify renotify = true
is_renotify _ = false

unfoldable pub is_digest_flush : Kind → Bool
is_digest_flush digest_flush = true
is_digest_flush _ = false
