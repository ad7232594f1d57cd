-- ===== src/Route/Frame.antt =====
-- What routing in backend/app/services/routing.py leaves alone: the configuration, and which events
-- there are.
use k8s_alert_manager.Prelude.{
  ℕ, ◌≡◌, refl, ◌∙◌, Bool, false, Option, none, some, List, [], ◌∷◌, All2, All2-refl, All2-trans,
  All2-update_where, Bool-cases, ◌==◌, inl, inr, arith,
}
use k8s_alert_manager.Runtime.{Runtime}
use k8s_alert_manager.Models.Alert.{EventStatus, AlertEvent}
use k8s_alert_manager.Models.Channel.{Channel}
use k8s_alert_manager.Models.Outbox.{Trigger, transition, Payload}
use k8s_alert_manager.Models.Routing.{RoutingRule}
use k8s_alert_manager.Models.Scheduled.{Kind}
use k8s_alert_manager.Models.Db.{Db}
use k8s_alert_manager.Exec.{modify}
use k8s_alert_manager.Exec.Keeps.{Steps, IsPreorder, Steps-pure, Steps-bind, Steps-if}
use k8s_alert_manager.Staging.{stage_outbox_row, ensure_digest_flush_scheduled}
use k8s_alert_manager.Route.Timers.{
  schedule_once, cancel_pending, escalation_loop, schedule_escalations, escalates,
}
use k8s_alert_manager.Route.Steps.{route_event-Steps}
use k8s_alert_manager.Route.Event.{set_suppressed, route_event}

pub record SameIdentity (e e' : AlertEvent) : Type 0 where
  pub id : e'.id ≡ e.id
  pub cluster_id : e'.cluster_id ≡ e.cluster_id
  pub fingerprint : e'.fingerprint ≡ e.fingerprint
  pub starts_at : e'.starts_at ≡ e.starts_at

pub SameIdentity-refl : (e : AlertEvent) → SameIdentity e e
SameIdentity-refl e = record { id = refl; cluster_id = refl; fingerprint = refl; starts_at = refl }

-- The events are the same ones, in the same order, and the other tables of the configuration stay.
pub record Frame (db db' : Db) : Type 0 where
  pub events : All2 SameIdentity db.events db'.events
  pub clusters : db'.clusters ≡ db.clusters
  pub channels : db'.channels ≡ db.channels
  pub rules : db'.rules ≡ db.rules

pub Frame-preorder : IsPreorder Frame
Frame-preorder = record {
  same = λ db. record {
    events = All2-refl _ db.events SameIdentity-refl;
    clusters = refl;
    channels = refl;
    rules = refl;
  };
  then_ = λ a b c f g. record {
    events =
        All2-trans SameIdentity SameIdentity SameIdentity a.events b.events c.events
          (λ x y z h k. record {
            id = k.id ∙ h.id;
            cluster_id = k.cluster_id ∙ h.cluster_id;
            fingerprint = k.fingerprint ∙ h.fingerprint;
            starts_at = k.starts_at ∙ h.starts_at;
          })
          f.events g.events;
    clusters = g.clusters ∙ f.clusters;
    channels = g.channels ∙ f.channels;
    rules = g.rules ∙ f.rules;
  };
}

pub Frame-same :
    (db db' : Db)
    → db'.events ≡ db.events
    → db'.clusters ≡ db.clusters
    → db'.channels ≡ db.channels
    → db'.rules ≡ db.rules
    → Frame db db'
Frame-same db db' e c h r = record {
  events = rw e (All2-refl _ db.events SameIdentity-refl);
  clusters = c;
  channels = h;
  rules = r;
}

stage_outbox_row-Frame :
    (now event_id : ℕ) (rule_id : Option ℕ) (channel : Channel) (team : Option ℕ)
    (trigger : Trigger) (payload : Payload)
    → Steps Frame (stage_outbox_row now event_id rule_id channel team trigger payload)
unfolding stage_outbox_row ensure_digest_flush_scheduled
stage_outbox_row-Frame now event_id rule_id channel none trigger payload =
    Steps-pure Frame-preorder false
stage_outbox_row-Frame now event_id rule_id channel (some team_id) trigger payload = record {
  at = λ db. Frame-same db _ (ground arith) (ground arith) (ground arith) (ground arith);
}

pub schedule_once-Frame :
    (is_kind : Kind → Bool) (kind : Kind) (event_id rule_id due_at : ℕ)
    → Steps Frame (schedule_once is_kind kind event_id rule_id due_at)
unfolding schedule_once
schedule_once-Frame is_kind kind event_id rule_id due_at = record {
  at = λ db. Frame-same db _ (ground arith) (ground arith) (ground arith) (ground arith);
}

module _ (rt : Runtime) (now : ℕ) (e : AlertEvent) (trigger : EventStatus) where
  escalation_loop-Frame :
      (rules : List RoutingRule) → Steps Frame (escalation_loop rt now e trigger rules)
  unfolding escalation_loop
  escalation_loop-Frame [] = Steps-pure Frame-preorder tt
  escalation_loop-Frame (rule ∷ rules) =
      Steps-bind Frame-preorder _ _
        (Steps-if Frame-preorder (escalates rt now e trigger rule) _ _
          (λ _. schedule_once-Frame _ _ _ _ _) (λ _. Steps-pure Frame-preorder tt))
        λ done. escalation_loop-Frame rules

  set_suppressed-Frame : (rule_id : ℕ) → Steps Frame (modify (set_suppressed e.id rule_id))
  set_suppressed-Frame rule_id = record {
    at = λ db. record {
      events =
          All2-update_where _ (λ x. x.id == e.id)
            (λ x. record x { suppressed_by_rule_id = some rule_id }) db.events
            λ x. elim (Bool-cases (x.id == e.id)) [
              | inl h ↦
                  rw h
                    (record { id = refl; cluster_id = refl; fingerprint = refl; starts_at = refl })
              | inr h ↦ rw h (SameIdentity-refl x)
            ];
      clusters = refl;
      channels = refl;
      rules = refl;
    };
  }

  schedule_escalations-Frame :
      (rules : List RoutingRule) → Steps Frame (schedule_escalations rt now e trigger rules)
  unfolding schedule_escalations
  schedule_escalations-Frame rules =
      Steps-if Frame-preorder _ _ _ (λ _. escalation_loop-Frame rules)
        (λ _. Steps-pure Frame-preorder tt)

  -- Routing an event, returning or raising, adds no event, leaves the identity of each, and never
  -- changes a cluster, a channel or a rule.
  pub route_event-Frame : Steps Frame (route_event rt now e trigger)
  unfolding cancel_pending
  route_event-Frame =
      route_event-Steps rt now e trigger
        (record {
          order = Frame-preorder;
          stages = λ rule_id channel team_id payload.
              stage_outbox_row-Frame now e.id rule_id channel (some team_id) (transition trigger)
                payload;
          escalations = schedule_escalations-Frame;
          suppresses = set_suppressed-Frame;
        })
        (λ _. record { at = λ db. Frame-same db _ refl refl refl refl })
