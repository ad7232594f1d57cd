-- ===== src/Worker/Reach.antt =====
-- What the dispatch handlers of backend/app/worker/scheduler.py add to the outbox.
use k8s_alert_manager.Prelude.{
  ℕ, ◌≡◌, refl, ap, inl, inr, Bool, true, false, not, ◌||◌, Option, none, some, List, [], ◌∷◌,
  is_some, subst, All, Any, Option-cases, Bool-cases, arith,
}
use k8s_alert_manager.Runtime.{Runtime}
use k8s_alert_manager.Models.Alert.{is_firing, AlertEvent}
use k8s_alert_manager.Models.Channel.{Channel}
use k8s_alert_manager.Models.Routing.{RoutingRule}
use k8s_alert_manager.Models.Outbox.{Trigger, Payload, NotificationOutbox}
use k8s_alert_manager.Models.Scheduled.{ScheduledAction}
use k8s_alert_manager.Models.Db.{Db, get_event, get_rule, get_channel}
use k8s_alert_manager.Exec.{Exec, Result, ok, err, continue, ◌>>=◌}
use k8s_alert_manager.Exec.Keeps.{Steps, Steps-pure, Steps-bind}
use k8s_alert_manager.Exec.Returns.{ok-injective}
use k8s_alert_manager.Staging.{stage_outbox_row, new_row}
use k8s_alert_manager.Staging.Keys.{
  kept, added, stage_outbox_row-Staged, stage_outbox_row-UniqueKeys,
}
use k8s_alert_manager.Route.Growth.{Grows, Grows-same, Grows-preorder}
use k8s_alert_manager.Worker.Handlers.{
  event_or_skip, live_event, rule_or_skip, live_rule, stage_each,
}

-- What `live_event` lets pass.
pub record IsLive (db : Db) (a : ScheduledAction) (e : AlertEvent) : Type 0 where
  pub event : (id : ℕ) × (a.alert_event_id ≡ some id) × (get_event db id ≡ some e)
  pub firing : is_firing e.status ≡ true
  pub unacknowledged : is_some e.acknowledged_at ≡ false

-- The rule that the action names.
abbrev pub IsRuleOf : Db → ScheduledAction → RoutingRule → Type 0
IsRuleOf db a rule = (id : ℕ) × (a.routing_rule_id ≡ some id) × (get_rule db id ≡ some rule)

-- The channel that one of the ids of an association names.
abbrev pub IsNamed : Db → List ℕ → Channel → Type 0
IsNamed db ids c = Any (λ id. get_channel db id ≡ some c) ids

-- A row for one event, channel and trigger.
pub record IsRowFor (trigger : Trigger) (e : AlertEvent) (c : Channel) (r : NotificationOutbox)
    : Type 0 where
  pub event : r.alert_event_id ≡ some e.id
  pub channel : r.channel_id ≡ c.id
  pub on : r.trigger ≡ trigger

pub live_event-IsLive :
    (db : Db) (a : ScheduledAction) (e : AlertEvent) → (live_event a db).0 ≡ ok e → IsLive db a e
unfolding live_event
live_event-IsLive db a e h = elim (Option-cases a.alert_event_id) [
  | inl gone ↦ absurd (ground arith)
  | inr (id, found) ↦ of_event (get_event db id) id found refl (rw found at h)
]
  where
    of_event :
        (o : Option AlertEvent) (id : ℕ)
        → a.alert_event_id ≡ some id
        → get_event db id ≡ o
        → (event_or_skip o db).0 ≡ ok e
        → IsLive db a e
    of_event none id found got k = absurd (ground arith)
    of_event (some x) id found got k =
        elim (Bool-cases (not (is_firing x.status) || is_some x.acknowledged_at)) [
          | inl stale ↦ absurd (ground arith)
          | inr live ↦ subst (IsLive db a) (ok-injective x e (rw live at k)) (record {
            event = (id, found, got);
            firing = ground arith;
            unacknowledged = ground arith;
          })
        ]

pub live_event-same : (db : Db) (a : ScheduledAction) → (live_event a db).1 ≡ db
unfolding live_event
live_event-same db a = ground arith

pub live_rule-same :
    (db : Db) (usable : RoutingRule → Bool) (a : ScheduledAction) → (live_rule usable a db).1 ≡ db
unfolding live_rule
live_rule-same db usable a = ground arith

pub live_rule-IsRuleOf :
    (db : Db) (usable : RoutingRule → Bool) (a : ScheduledAction) (rule : RoutingRule)
    → (live_rule usable a db).0 ≡ ok rule
    → IsRuleOf db a rule × (usable rule ≡ true)
unfolding live_rule
live_rule-IsRuleOf db usable a rule h = elim (Option-cases a.routing_rule_id) [
  | inl gone ↦ absurd (ground arith)
  | inr (id, found) ↦ of_rule (get_rule db id) id found refl (rw found at h)
]
  where
    of_rule :
        (o : Option RoutingRule) (id : ℕ)
        → a.routing_rule_id ≡ some id
        → get_rule db id ≡ o
        → (rule_or_skip usable o db).0 ≡ ok rule
        → IsRuleOf db a rule × (usable rule ≡ true)
    of_rule none id found got k = absurd (ground arith)
    of_rule (some x) id found got k = elim (Bool-cases (usable x)) [
      | inr off ↦ absurd (ground arith)
      | inl on ↦
          subst (λ y. IsRuleOf db a y × (usable y ≡ true)) (ok-injective x rule (rw on at k))
            ((id, found, got), on)
    ]

-- A call that only reads, and what comes behind it.
pub behind-Grows :
    {A B : Type 0} (P : NotificationOutbox → Type 0) (m : Exec A) (f : A → Exec B) (db : Db)
    → (m db).1 ≡ db
    → ((x : A) → (m db).0 ≡ ok x → Grows P db (f x db).1)
    → Grows P db ((m >>= f) db).1
behind-Grows {A} {B} P m f db same h = go (m db).0 (m db).1 same h
  where
    go :
        (r : Result A) (db' : Db)
        → db' ≡ db
        → ((x : A) → r ≡ ok x → Grows P db (f x db).1)
        → Grows P db (continue r f db').1
    go (ok x) db' e k = rw e (k x refl)
    go (err x) db' e k = rw e ((Grows-preorder P).same db)

module _ (rt : Runtime) (now : ℕ) (trigger : Trigger) (e : AlertEvent) (rule : RoutingRule)
    (payload : Payload) (Q : Channel → Type 0) where
  abbrev pub Reached : NotificationOutbox → Type 0
  Reached r = (c : Channel) × Q c × IsRowFor trigger e c r

  stage_row-Grows :
      (c : Channel)
      → Q c
      → Steps (Grows Reached) (stage_outbox_row now e.id (some rule.id) c e.team_id trigger payload)
  stage_row-Grows c q = record {
    at = λ db.
        elim (stage_outbox_row-Staged now e.id (some rule.id) c e.team_id trigger payload db) [
          | kept why same r ↦ Grows-same _ db _ (ap (λ d. d.outbox) same)
          | added t status h waits free split ↦ record {
            new =
                new_row db.next_outbox_id now e.id (some rule.id) c.id t trigger payload status
                ∷ [];
            split = split;
            rows = ((c, q, record { event = refl; channel = refl; on = refl }), tt);
            unique =
                stage_outbox_row-UniqueKeys now e.id (some rule.id) c e.team_id trigger payload db;
          }
        ];
  }

  pub stage_each-Grows :
      (cs : List Channel)
      → All Q cs
      → Steps (Grows Reached) (stage_each rt now e rule trigger payload cs)
  unfolding stage_each
  stage_each-Grows [] q = Steps-pure (Grows-preorder Reached) tt
  stage_each-Grows (c ∷ cs) q =
      Steps-bind (Grows-preorder Reached) _ _ (stage_row-Grows c q.0)
        λ inserted. stage_each-Grows cs q.1
