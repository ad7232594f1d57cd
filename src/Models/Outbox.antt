-- ===== src/Models/Outbox.antt =====
-- backend/app/models/outbox.py and the notification of backend/app/channels/base.py.
use k8s_alert_manager.Prelude.{
  ℕ, String, ◌≡◌, refl, ap, Bool, true, false, Option, arith, ◌==◌, ==_iff, str_eq, eq_iff,
}
use k8s_alert_manager.Models.Alert.{EventStatus, firing, resolved, Labels}

-- The texts 'firing', 'resolved', 'escalation', 'renotify:<action id>', 'digest' and 'report'.
pub data Trigger : Type 0 where
  transition : EventStatus → Trigger
  escalation digest report : Trigger
  renotify : ℕ → Trigger

-- The frozen snapshot of an alert that a channel is given.
pub record AlertNotification : Type 0 where
  pub event_id : ℕ
  pub trigger : EventStatus
  pub alertname : String
  pub severity : Option String
  pub namespace : Option String
  pub cluster : String
  pub labels : Labels
  pub annotations : Labels
  pub starts_at : ℕ
  pub ends_at : Option ℕ
  pub team_slug : String
  pub app_url : String
  pub runbook_url : Option String
  pub grafana_url : Option String

pub record RenderedMessage : Type 0 where
  pub title : String
  pub body : String
  pub body_html : Option String

-- The `payload` column: one notification, the payloads of a digest, or a rendered report.
mutual
  pub data Payload : Type 0 where
    notification : AlertNotification → Payload
    digest : (notifications : Payloads) (count window_started_at : ℕ) → Payload
    report : RenderedMessage → (schedule_id : ℕ) → Payload

  pub data Payloads : Type 0 where
    nil : Payloads
    cons : Payload → Payloads → Payloads

pub data Status : Type 0 where
  pending in_progress delivered dead digested : Status

pub record NotificationOutbox : Type 0 where
  pub id : ℕ
  pub alert_event_id : Option ℕ
  pub routing_rule_id : Option ℕ
  pub channel_id : ℕ
  pub team_id : ℕ
  pub trigger : Trigger
  pub payload : Payload
  pub status : Status
  pub attempts : ℕ
  pub is_digest : Bool
  pub digested_into_id : Option ℕ
  pub next_attempt_at : ℕ
  pub locked_by : Option String
  pub locked_at : Option ℕ
  pub last_error : Option String
  pub created_at : ℕ
  pub delivered_at : Option ℕ

unfoldable pub is_pending : Status → Bool
is_pending pending = true
is_pending _ = false

unfoldable pub is_in_progress : Status → Bool
is_in_progress in_progress = true
is_in_progress _ = false

unfoldable pub is_digested : Status → Bool
is_digested digested = true
is_digested _ = false

unfoldable pub status_eq : EventStatus → EventStatus → Bool
status_eq firing firing = true
status_eq resolved resolved = true
status_eq (EventStatus.unknown s) (EventStatus.unknown t) = str_eq s t
status_eq _ _ = false

-- `trigger = :trigger` in a constraint or a query.
unfoldable pub trigger_eq : Trigger → Trigger → Bool
unfolding status_eq
trigger_eq (transition s) (transition t) = status_eq s t
trigger_eq escalation escalation = true
trigger_eq digest digest = true
trigger_eq report report = true
trigger_eq (renotify m) (renotify n) = m == n
trigger_eq _ _ = false

pub trigger_eq_refl : (t : Trigger) → trigger_eq t t ≡ true
unfolding trigger_eq status_eq
trigger_eq_refl (transition firing) = refl
trigger_eq_refl (transition resolved) = refl
trigger_eq_refl (transition (EventStatus.unknown s)) = (eq_iff s s).1 refl
trigger_eq_refl escalation = refl
trigger_eq_refl digest = refl
trigger_eq_refl report = refl
trigger_eq_refl (renotify n) = ground arith

status_eq→eq : (s t : EventStatus) → status_eq s t ≡ true → s ≡ t
unfolding status_eq
status_eq→eq (EventStatus.unknown s) (EventStatus.unknown t) h =
    ap EventStatus.unknown ((eq_iff s t).0 h)
status_eq→eq s t h = ground arith

pub trigger_eq→eq : (s t : Trigger) → trigger_eq s t ≡ true → s ≡ t
unfolding trigger_eq
trigger_eq→eq (transition s) (transition t) h = ap transition (status_eq→eq s t h)
trigger_eq→eq (renotify m) (renotify n) h = ap renotify ((==_iff m n).0 h)
trigger_eq→eq s t h = ground arith
