-- ===== src/Route/Quiet.antt =====
-- The end of an episode: `route_event` of backend/app/services/routing.py for a resolved event, and
-- `cancel_pending` of backend/app/services/scheduled_actions.py.
use k8s_alert_manager.Prelude.{
  ℕ, ◌≡◌, refl, true, false, Option, none, some, List, [], ◌∷◌, any, count, count-append,
  update_where, inl, inr, Bool-cases, arith,
}
use k8s_alert_manager.Runtime.{Runtime}
use k8s_alert_manager.Models.Alert.{resolved, is_resolved, is_firing, AlertEvent}
use k8s_alert_manager.Models.Channel.{Channel}
use k8s_alert_manager.Models.Outbox.{Trigger, Payload, Status}
use k8s_alert_manager.Models.Scheduled.{ScheduledAction}
use k8s_alert_manager.Models.Scheduled
use k8s_alert_manager.Models.Db.{Db}
use k8s_alert_manager.Exec.{pure, continue}
use k8s_alert_manager.Exec.Keeps.{IsPreorder, Steps-pure}
use k8s_alert_manager.Staging.{
  stage_outbox_row, ensure_digest_flush_scheduled, flush_action, has_key, channel_needs_parking,
  add_row, new_row,
}
use k8s_alert_manager.Route.Timers.{pending_for, cancel, cancel_pending, schedule_escalations}
use k8s_alert_manager.Route.Event.{route_event}
use k8s_alert_manager.Route.Steps.{Parts, route_or_skip-Steps}

-- No timer of the event is pending.
abbrev pub IsQuiet : ℕ → Db → Type 0
IsQuiet event_id db = count (pending_for event_id) db.actions ≡ 0

abbrev StaysQuiet : ℕ → Db → Db → Type 0
StaysQuiet event_id db db' = IsQuiet event_id db → IsQuiet event_id db'

StaysQuiet-preorder : (event_id : ℕ) → IsPreorder (StaysQuiet event_id)
StaysQuiet-preorder event_id = record { same = λ db q. q; then_ = λ a b c f g q. g (f q) }

pub cancel_pending-IsQuiet :
    (now event_id : ℕ) (db : Db) → IsQuiet event_id (cancel_pending now event_id db).1
unfolding cancel_pending
cancel_pending-IsQuiet now event_id db = none_left db.actions
  where
    cancelled : (a : ScheduledAction) → pending_for event_id (cancel now a) ≡ false
    cancelled a = unfold pending_for Scheduled.is_pending in ground arith

    none_left :
        (more : List ScheduledAction)
        → count (pending_for event_id) (update_where (pending_for event_id) (cancel now) more) ≡ 0
    none_left [] = refl
    none_left (a ∷ more) = elim (Bool-cases (pending_for event_id a)) [
      | inl e ↦ rw e (ground (arith, cancelled a, none_left more))
      | inr e ↦ rw e (ground (arith, e, none_left more))
    ]

flush-quiet :
    (event_id id now : ℕ) (channel : Channel)
    → pending_for event_id (flush_action id now channel) ≡ false
unfolding pending_for
flush-quiet event_id id now channel = refl

count-ensure_flush :
    (event_id now : ℕ) (channel : Channel) (db : Db)
    → count (pending_for event_id) (ensure_digest_flush_scheduled now channel db).1.actions
      ≡ count (pending_for event_id) db.actions
unfolding ensure_digest_flush_scheduled
count-ensure_flush event_id now channel db = ground (
  arith,
  flush-quiet event_id db.next_action_id now channel,
  count-append (pending_for event_id) db.actions (flush_action db.next_action_id now channel ∷ []),
)

count-stage :
    (event_id now e : ℕ) (rule_id : Option ℕ) (channel : Channel) (team : Option ℕ)
    (trigger : Trigger) (payload : Payload) (db : Db)
    → count
        (pending_for event_id)
        (stage_outbox_row now e rule_id channel team trigger payload db).1.actions
      ≡ count (pending_for event_id) db.actions
unfolding stage_outbox_row
count-stage event_id now e rule_id channel none trigger payload db = refl
count-stage event_id now e rule_id channel (some t) trigger payload db =
    elim (Bool-cases (any (has_key e channel.id trigger) db.outbox)) [
      | inl old ↦ rw old refl
      | inr free ↦ elim (Bool-cases (channel_needs_parking db now channel)) [
        | inl park ↦ rw (free, park) (by_flush Status.digested)
        | inr queue ↦ rw (free, queue) refl
      ]
    ]
  where
    row : Status → Db
    row status =
        add_row (new_row db.next_outbox_id now e rule_id channel.id t trigger payload status) db

    by_flush :
        (status : Status)
        → count
            (pending_for event_id)
            (continue
              (ensure_digest_flush_scheduled now channel (row status)).0
              (λ u. pure true)
              (ensure_digest_flush_scheduled now channel (row status)).1).1.actions
          ≡ count (pending_for event_id) db.actions
    by_flush status = ground (arith, count-ensure_flush event_id now channel (row status))

module _ (rt : Runtime) (now : ℕ) (e : AlertEvent) where
  parts : Parts (StaysQuiet e.id) rt now e resolved
  parts = record {
    order = StaysQuiet-preorder e.id;
    stages = λ rule_id channel team_id payload. record {
      at = λ db q. rw (count-stage e.id now e.id rule_id channel (some team_id) _ payload db) q;
    };
    escalations =
        λ rules. unfold schedule_escalations is_firing in Steps-pure (StaysQuiet-preorder e.id) tt;
    suppresses = λ rule_id. record { at = λ db q. q };
  }

  -- After routing a resolved event, returning or raising, no timer of the event is pending: its
  -- escalations and renotifications are over, and routing starts none.
  pub route_event-IsQuiet : (db : Db) → IsQuiet e.id (route_event rt now e resolved db).1
  unfolding route_event is_resolved cancel_pending
  route_event-IsQuiet db =
      (route_or_skip-Steps rt now e resolved parts e.team_id).at (cancel_pending now e.id db).1
        (cancel_pending-IsQuiet now e.id db)
