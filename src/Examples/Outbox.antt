-- ===== src/Examples/Outbox.antt =====
-- Staging and delivery at concrete databases: backend/app/services/routing.py and worker/outbox.py.
use k8s_alert_manager.Prelude.{
  ◌≡◌, refl, ◌↔◌, any, ◌⊎◌, true, false, none, some, [], ◌∷◌, count, elem, All2, arith,
}
use k8s_alert_manager.Models.Alert.{firing}
use k8s_alert_manager.Models.Outbox.{NotificationOutbox, Trigger, transition, pending, in_progress}
use k8s_alert_manager.Models.Db.{Db}
use k8s_alert_manager.Exec.{ok, err, multiple_results}
use k8s_alert_manager.Staging.{has_key, pending_flush, channel_needs_parking, stage_outbox_row}
use k8s_alert_manager.Staging.Keys.{UniqueKeys, stage_outbox_row-UniqueKeys}
use k8s_alert_manager.Staging.Storm.{Blocks, parked-has_timer, stage_outbox_row-raises_iff}
use k8s_alert_manager.Route.Owner.{stage_outbox}
use k8s_alert_manager.Route.Event.{route_event}
use k8s_alert_manager.Route.Growth.{Grows}
use k8s_alert_manager.Route.Recipients.{Allowed, route_event-Grows}
use k8s_alert_manager.Route.Repeats.{stage_outbox_twice}
use k8s_alert_manager.Worker.Claim.{claim_batch, is_due}
use k8s_alert_manager.Worker.Deliver.{deliver, mark_delivery_failure, run_tick}
use k8s_alert_manager.Worker.Due.{UniqueIds}
use k8s_alert_manager.Worker.Settled.{Returned, deliver-Settled}
use k8s_alert_manager.Worker.Touched.{run_tick-leaves_idle}
use k8s_alert_manager.Worker.Retry.{Failed, mark_delivery_failure_lem, fail_all, fail_all_lem}
use k8s_alert_manager.Worker.Leases.{claim_batch_exclusive}
use k8s_alert_manager.Examples.Samples.{
  runtime, event, rule, channel, storm_channel, payload, row, flush, database, stormy, channels,
  turn,
}

abbrev one_row : Db
one_row = record database { outbox = row ∷ [] }

stormy-UniqueIds : UniqueIds stormy
stormy-UniqueIds = record { at_id = λ n. ground arith }

route_event-Grows_example :
    Grows
      (Allowed runtime 200 event firing database)
      database
      (route_event runtime 200 event firing database).1
route_event-Grows_example = route_event-Grows runtime 200 event firing database

stage_outbox_row-UniqueKeys_example :
    UniqueKeys
      (stage_outbox_row 200 1 (some 1) channel (some 1) (transition firing) payload one_row).1
stage_outbox_row-UniqueKeys_example =
    stage_outbox_row-UniqueKeys 200 1 (some 1) channel (some 1) (transition firing) payload one_row
      (record { at_key = λ e c t. ground arith })

stage_outbox_twice_example :
    let staged = stage_outbox 200 1 firing 1 payload ((channel, rule) ∷ []) database in
    stage_outbox 200 1 firing 1 payload ((channel, rule) ∷ []) staged.1 ≡ (ok 0, staged.1)
stage_outbox_twice_example =
    stage_outbox_twice 200 1 firing 1 payload ((channel, rule) ∷ []) database 1
      (unfold stage_outbox stage_outbox_row in refl)

parked-has_timer_example :
    count
      (pending_flush 3)
      (stage_outbox_row 200 1 none storm_channel
        (some 1)
        (transition firing)
        payload
        database).1.actions
    ≡ 1
parked-has_timer_example =
    parked-has_timer 200 1 none storm_channel 1 (transition firing) payload database
      (unfold channel_needs_parking in refl) (unfold stage_outbox_row in refl)

abbrev two_timers : Db
two_timers = record database { actions = flush ∷ record flush { id = 3 } ∷ [] }

stage_outbox_row-raises_iff_example :
    ((stage_outbox_row 200 1 none storm_channel (some 1) (transition firing) payload two_timers).0
      ≡ err multiple_results)
    ↔ ((any (has_key 1 3 (transition firing)) two_timers.outbox ≡ false)
        × (channel_needs_parking two_timers 200 storm_channel ≡ true)
        × Blocks 200 storm_channel two_timers multiple_results)
stage_outbox_row-raises_iff_example =
    stage_outbox_row-raises_iff 200 1 none storm_channel 1 (transition firing) payload two_timers
      multiple_results

deliver-Settled_example : Returned 1 (deliver channels 200 3 row stormy)
deliver-Settled_example = deliver-Settled channels 200 3 row stormy

run_tick-leaves_idle_example :
    All2
      (λ r r'. (r'.id ≡ r.id) × ((is_due 200 r ≡ true) ⊎ (r' ≡ r)))
      stormy.outbox
      (run_tick turn "w" 200 10 stormy).1.outbox
run_tick-leaves_idle_example = run_tick-leaves_idle turn "w" 200 10 stormy stormy-UniqueIds

claim_batch_exclusive_example :
    elem 1 (claim_batch "b" 300 5 (claim_batch "a" 200 5 stormy).1).0 ≡ false
claim_batch_exclusive_example =
    claim_batch_exclusive "a" "b" 200 300 5 5 stormy 1 (unfold claim_batch in refl)

mark_delivery_failure_lem_example :
    let r' = mark_delivery_failure 200 3 "timeout" row in
    (r'.attempts ≡ 1) × (r'.locked_by ≡ none) × (r'.locked_at ≡ none) × Failed 200 3 row r'
mark_delivery_failure_lem_example = mark_delivery_failure_lem 200 3 "timeout" row

fail_all_lem_example :
    ((fail_all ((200, 3, "e") ∷ (300, 1, "f") ∷ []) row).attempts ≡ 2)
    × ((fail_all ((200, 3, "e") ∷ (300, 1, "f") ∷ []) row).status ≡ pending)
fail_all_lem_example = fail_all_lem (200, 3, "e") ((300, 1, "f") ∷ []) row

abbrev report_row : NotificationOutbox
report_row = record row { trigger = Trigger.report; status = in_progress }

abbrev reported : Db
reported = record database { outbox = report_row ∷ [] }
