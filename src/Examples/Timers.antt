-- ===== src/Examples/Timers.antt =====
-- Timers at concrete databases: backend/app/worker/scheduler.py and worker/heartbeat.py.
use k8s_alert_manager.Prelude.{
  ℕ, ◌≡◌, refl, true, false, some, [], ◌∷◌, ◌++◌, count, filter, elem, update_where, All, arith,
}
use k8s_alert_manager.Models.Outbox.{NotificationOutbox, is_digested}
use k8s_alert_manager.Models.Alert.{resolved}
use k8s_alert_manager.Models.Scheduled.{is_renotify}
use k8s_alert_manager.Models.Cluster.{Cluster, HeartbeatState, is_ok}
use k8s_alert_manager.Models.Db.{get_cluster}
use k8s_alert_manager.Route.Event.{route_event}
use k8s_alert_manager.Route.Once.{schedule_renotify-one}
use k8s_alert_manager.Route.Quiet.{IsQuiet, route_event-IsQuiet}
use k8s_alert_manager.Route.Timers.{pending_timer, schedule_once, schedule_renotify}
use k8s_alert_manager.Route.Growth.{Grows}
use k8s_alert_manager.Worker.Actions.{claim_due_actions, is_abandoned}
use k8s_alert_manager.Worker.Handlers.{dispatch_escalation, dispatch_renotify}
use k8s_alert_manager.Worker.Consent.{Escalates, dispatch_escalation-Grows}
use k8s_alert_manager.Worker.Cycles.{Renotifies, dispatch_renotify-Grows}
use k8s_alert_manager.Worker.Digest.{is_parked, linked_to, parked_rows, flush_rows}
use k8s_alert_manager.Worker.Flush.{IsAggregate, flush_rows-IsAggregate, flush_rows-none_parked}
use k8s_alert_manager.Worker.Dispatch.{dispatch}
use k8s_alert_manager.Worker.Dispatched.{Concluded, dispatch-Concluded}
use k8s_alert_manager.Worker.Reclaim.{claim_due_actions-fresh}
use k8s_alert_manager.Heartbeat.{check_and_flip_one, flips, is_candidate, inject_heartbeat_lost}
use k8s_alert_manager.Heartbeat.Missing.{check_and_flip_one-IsMissing}
use k8s_alert_manager.Heartbeat.Alarms.{MayAlarm, check_and_flip_one-MayAlarm}
use k8s_alert_manager.Examples.Samples.{
  runtime, event, storm_channel, action, renotify, rule, flush, database, stormy,
}

dispatch_escalation-Grows_example :
    Grows (Escalates database action) database (dispatch_escalation runtime 200 action database).1
dispatch_escalation-Grows_example = dispatch_escalation-Grows runtime 200 action database

flush_rows-IsAggregate_example :
    (g : NotificationOutbox) × ((flush_rows 200 storm_channel (parked_rows 3 stormy) stormy).outbox
      ≡ update_where (is_parked 3) (linked_to g.id) stormy.outbox ++ g ∷ [])
    × IsAggregate storm_channel (filter (is_parked 3) stormy.outbox) g
flush_rows-IsAggregate_example =
    flush_rows-IsAggregate 200 storm_channel stormy (unfold is_parked is_digested in omega arith)

flush_rows-none_parked_example :
    count (is_parked 3) (flush_rows 200 storm_channel (parked_rows 3 stormy) stormy).outbox ≡ 0
flush_rows-none_parked_example = flush_rows-none_parked 200 storm_channel stormy

dispatch-Concluded_example :
    All
      (λ x. x.id ≡ 2 → Concluded 200 x)
      (dispatch runtime 200 flush (record stormy { actions = flush ∷ [] })).actions
dispatch-Concluded_example =
    dispatch-Concluded runtime 200 flush (record stormy { actions = flush ∷ [] })

claim_due_actions-fresh_example :
    let (ids, db') = claim_due_actions 900 5 database in
    All (λ a. elem a.id ids ≡ true → is_abandoned 300 1000 a ≡ false) db'.actions
claim_due_actions-fresh_example = claim_due_actions-fresh 300 900 1000 5 database (omega arith)

abbrev late : ℕ
late = 70000000

check_and_flip_one-MayAlarm_example :
    (c : Cluster) × (get_cluster database 1 ≡ some c) × MayAlarm late c
check_and_flip_one-MayAlarm_example =
    check_and_flip_one-MayAlarm runtime late (λ db. db) 1 database "prod"
      (unfold check_and_flip_one flips is_candidate is_ok inject_heartbeat_lost in refl)

check_and_flip_one-IsMissing_example :
    (c : Cluster) × (get_cluster database 1 ≡ some c)
    × (get_cluster (check_and_flip_one runtime late (λ db. db) 1 database).1 1
        ≡ some (record c { heartbeat_state = HeartbeatState.missing }))
check_and_flip_one-IsMissing_example =
    check_and_flip_one-IsMissing runtime late (λ db. db) (λ db. refl) 1 database "prod"
      (unfold check_and_flip_one flips is_candidate is_ok inject_heartbeat_lost in refl)

route_event-IsQuiet_example : IsQuiet 1 (route_event runtime 200 event resolved database).1
route_event-IsQuiet_example = route_event-IsQuiet runtime 200 event database

dispatch_renotify-Grows_example :
    Grows
      (Renotifies database renotify)
      database
      (dispatch_renotify runtime 200 renotify database).1
dispatch_renotify-Grows_example = dispatch_renotify-Grows runtime 200 renotify database

schedule_renotify-one_example :
    count (pending_timer is_renotify 1 1) (schedule_renotify 200 1 rule database).1.actions ≡ 1
schedule_renotify-one_example =
    schedule_renotify-one 200 1 rule database
      (unfold schedule_renotify schedule_once pending_timer in refl)
