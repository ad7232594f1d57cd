-- ===== src/Route/Growth.antt =====
-- Routing only adds rows to the outbox: the relation that each of its steps satisfies.
use k8s_alert_manager.Prelude.{
  ℕ, ◌≡◌, refl, sym, ◌∙◌, ap, ◌⊎◌, inl, inr, Bool, Option, some, List, [], ◌∷◌, ◌++◌, append-nil,
  append_assoc, All, All-append, All-map, Any, arith,
}
use k8s_alert_manager.Runtime.{Runtime}
use k8s_alert_manager.Models.Alert.{EventStatus, AlertEvent}
use k8s_alert_manager.Models.Routing.{RoutingRule}
use k8s_alert_manager.Models.Channel.{Channel}
use k8s_alert_manager.Models.Outbox.{
  Trigger, transition, Payload, NotificationOutbox, pending, digested,
}
use k8s_alert_manager.Models.Scheduled.{Kind}
use k8s_alert_manager.Models.Db.{Db}
use k8s_alert_manager.Exec.{Exec}
use k8s_alert_manager.Exec.Keeps.{Steps, IsPreorder, Steps-pure, Steps-bind, Steps-if}
use k8s_alert_manager.Staging.{stage_outbox_row, new_row}
use k8s_alert_manager.Staging.Keys.{
  UniqueKeys, kept, added, stage_outbox_row-Staged, stage_outbox_row-UniqueKeys,
}
use k8s_alert_manager.Route.Owner.{Matches, stage_outbox}
use k8s_alert_manager.Route.Timers.{
  schedule_once, schedule_escalations, escalation_loop, cancel_pending, escalates,
}

-- The old rows stay as they were, in front of new rows that satisfy `P`, and keys stay distinct.
pub record Grows (P : NotificationOutbox → Type 0) (db db' : Db) : Type 0 where
  pub new : List NotificationOutbox
  pub split : db'.outbox ≡ db.outbox ++ new
  pub rows : All P new
  pub unique : UniqueKeys db → UniqueKeys db'

pub Grows-same :
    (P : NotificationOutbox → Type 0) (db db' : Db) → db'.outbox ≡ db.outbox → Grows P db db'
Grows-same P db db' e = record {
  new = [];
  split = e ∙ sym (append-nil db.outbox);
  rows = tt;
  unique = λ u. record { at_key = λ a b c. rw e (u.at_key a b c) };
}

pub Grows-preorder : (P : NotificationOutbox → Type 0) → IsPreorder (Grows P)
Grows-preorder P = record {
  same = λ db. Grows-same P db db refl;
  then_ = λ a b c f g. record {
    new = f.new ++ g.new;
    split = g.split ∙ ap (λ l. l ++ g.new) f.split ∙ append_assoc a.outbox f.new g.new;
    rows = All-append P f.new g.new f.rows g.rows;
    unique = λ u. g.unique (f.unique u);
  };
}

pub Grows-weaken :
    (P Q : NotificationOutbox → Type 0) (db db' : Db)
    → ((r : NotificationOutbox) → P r → Q r)
    → Grows P db db'
    → Grows Q db db'
Grows-weaken P Q db db' f g = record {
  new = g.new;
  split = g.split;
  rows = All-map P Q g.new f g.rows;
  unique = g.unique;
}

-- A fresh row for one event, trigger and team: never attempted, queued or parked.
pub record IsFreshFor (event_id : ℕ) (trigger : Trigger) (team_id : ℕ) (r : NotificationOutbox)
    : Type 0 where
  pub event : r.alert_event_id ≡ some event_id
  pub on : r.trigger ≡ trigger
  pub team : r.team_id ≡ team_id
  pub waiting : (r.status ≡ pending) ⊎ (r.status ≡ digested)
  pub unattempted : r.attempts ≡ 0

-- The row is for the channel of the pair, under its rule.
abbrev pub IsForMatch : Channel × RoutingRule → NotificationOutbox → Type 0
IsForMatch m r = (r.channel_id ≡ m.0.id) × (r.routing_rule_id ≡ some m.1.id)

pub Steps-weaken :
    {A : Type 0} (P Q : NotificationOutbox → Type 0) (m : Exec A)
    → ((r : NotificationOutbox) → P r → Q r)
    → Steps (Grows P) m
    → Steps (Grows Q) m
Steps-weaken P Q m f s = record { at = λ db. Grows-weaken P Q db _ f (s.at db) }

module _ (P : NotificationOutbox → Type 0) where
  -- Code that leaves the outbox alone.
  pub Steps-outbox :
      {A : Type 0} (m : Exec A) → ((db : Db) → (m db).1.outbox ≡ db.outbox) → Steps (Grows P) m
  Steps-outbox m h = record { at = λ db. Grows-same P db _ (h db) }

stage_outbox_row-Grows :
    (now event_id : ℕ) (rule_id : Option ℕ) (channel : Channel) (team_id : ℕ) (trigger : Trigger)
    (payload : Payload)
    → Steps
        (Grows (λ r.
          IsFreshFor event_id trigger team_id r
          × (r.channel_id ≡ channel.id)
          × (r.routing_rule_id ≡ rule_id)))
        (stage_outbox_row now event_id rule_id channel (some team_id) trigger payload)
stage_outbox_row-Grows now event_id rule_id channel team_id trigger payload = record {
  at = λ db.
      elim (stage_outbox_row-Staged now event_id rule_id channel (some team_id) trigger payload
        db) [
          | kept why e r ↦ Grows-same _ db _ (ap (λ d. d.outbox) e)
          | added t status h waits free e ↦ record {
            new =
                new_row db.next_outbox_id now event_id rule_id channel.id t trigger payload status
                ∷ [];
            split = e;
            rows = (
              (
                record {
                  event = refl;
                  on = refl;
                  team = ground arith;
                  waiting = waits;
                  unattempted = refl;
                },
                refl,
                refl,
              ),
              tt,
            );
            unique =
                stage_outbox_row-UniqueKeys now event_id rule_id channel (some team_id) trigger
                  payload db;
          }
        ];
}

pub stage_outbox-Grows :
    (now event_id : ℕ) (trigger : EventStatus) (team_id : ℕ) (payload : Payload) (matches : Matches)
    → Steps
        (Grows (λ r.
          IsFreshFor event_id (transition trigger) team_id r × Any (λ m. IsForMatch m r) matches))
        (stage_outbox now event_id trigger team_id payload matches)
unfolding stage_outbox
stage_outbox-Grows now event_id trigger team_id payload [] = Steps-pure (Grows-preorder _) 0
stage_outbox-Grows now event_id trigger team_id payload ((channel, rule) ∷ rest) =
    Steps-bind (Grows-preorder _) _ _
      (Steps-weaken _ _ _ (λ r h. (h.0, inl (h.1, h.2)))
        (stage_outbox_row-Grows now event_id (some rule.id) channel team_id (transition trigger)
          payload))
      λ inserted.
        Steps-bind (Grows-preorder _) _ _
          (Steps-weaken _ _ _ (λ r h. (h.0, inr h.1))
            (stage_outbox-Grows now event_id trigger team_id payload rest))
          λ created. Steps-pure (Grows-preorder _) _

outbox-schedule_once :
    (is_kind : Kind → Bool) (kind : Kind) (event_id rule_id due_at : ℕ) (db : Db)
    → (schedule_once is_kind kind event_id rule_id due_at db).1.outbox ≡ db.outbox
unfolding schedule_once
outbox-schedule_once is_kind kind event_id rule_id due_at db = ground arith

module _ (P : NotificationOutbox → Type 0) (rt : Runtime) (now : ℕ) (e : AlertEvent)
    (trigger : EventStatus) where
  escalation_loop-Grows :
      (rules : List RoutingRule) → Steps (Grows P) (escalation_loop rt now e trigger rules)
  unfolding escalation_loop
  escalation_loop-Grows [] = Steps-pure (Grows-preorder P) tt
  escalation_loop-Grows (rule ∷ rules) =
      Steps-bind (Grows-preorder P) _ _
        (Steps-if (Grows-preorder P) (escalates rt now e trigger rule) _ _
          (λ _. Steps-outbox P _ (outbox-schedule_once _ _ _ _ _))
          (λ _. Steps-pure (Grows-preorder P) tt))
        λ done. escalation_loop-Grows rules

  pub schedule_escalations-Grows :
      (rules : List RoutingRule) → Steps (Grows P) (schedule_escalations rt now e trigger rules)
  unfolding schedule_escalations
  schedule_escalations-Grows rules =
      Steps-if (Grows-preorder P) _ _ _ (λ _. escalation_loop-Grows rules)
        (λ _. Steps-pure (Grows-preorder P) tt)

  pub cancel_pending-Grows : (event_id : ℕ) → Steps (Grows P) (cancel_pending now event_id)
  unfolding cancel_pending
  cancel_pending-Grows event_id = Steps-outbox P _ (λ db. refl)
