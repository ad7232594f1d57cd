-- ===== src/Ingest/Counting.antt =====
-- The counters of `IngestResult` in backend/app/services/ingest.py.
use k8s_alert_manager.Prelude.{
  ℕ, suc, ◌+◌, ◌≡◌, refl, Bool, true, false, ◌&&◌, Option, none, some, List, [], ◌∷◌, length, any,
  lookup, arith,
}
use k8s_alert_manager.Runtime.{Runtime}
use k8s_alert_manager.Models.Alert.{firing, resolved, is_firing, is_resolved, AlertEvent}
use k8s_alert_manager.Models.Cluster.{Cluster, is_missing}
use k8s_alert_manager.Models.Db.{Db, get_cluster, set_event, set_cluster}
use k8s_alert_manager.Exec.{Exec, ok, integrity, assertion, pure, modify, ◌>>=◌, ◌>>◌}
use k8s_alert_manager.Exec.Returns.{
  Returns, Returns-pure, Returns-raise, Returns-bind, Returns-then, Returns-if, Returns-state,
  Returns-weaken,
}
use k8s_alert_manager.Ingest.{
  AlertmanagerAlert, IngestResult, TransitionKind, transition, has_identity, get_existing,
  resolve_team_id, on_event_transition, add_event,
}
use k8s_alert_manager.Ingest.Alerts.{
  start_of, end_of, is_heartbeat, beat, seen, recover_from, new_event, touched, closed, opened,
  ingest_heartbeat, ingest_existing, ingest_created, existing_or_raise, insert_or_existing,
  insert_event, insert_or_update, ingest_identified, ingest_one, ingest_into, ingest_all, no_result,
  ingest_webhook,
}

-- The number of alerts that the outcome counters account for.
unfoldable pub accounted : IngestResult → ℕ
accounted res =
    res.created + res.created_resolved + res.resolved + res.reopened + res.repeats
    + res.heartbeats_seen + res.skipped

-- One more alert is accounted for, and none is received.
abbrev OneMore : IngestResult → IngestResult → Type 0
OneMore res res' = (res'.received ≡ res.received) × (accounted res' ≡ suc (accounted res))

-- A call, and a result behind it.
behind :
    {A : Type 0} (res : IngestResult) (m : Exec A) (f : A → IngestResult)
    → ((a : A) → OneMore res (f a))
    → Returns (OneMore res) (m >>= λ a. pure (f a))
behind res m f h = Returns-bind _ _ _ λ a. Returns-pure _ _ (h a)

module _ (rt : Runtime) (now : ℕ) (meanwhile : Db → Db) where
  module _ (res : IngestResult) where
    existing-OneMore :
        (alert : AlertmanagerAlert) (ends_at : Option ℕ) (e : AlertEvent)
        → Returns (OneMore res) (ingest_existing rt now meanwhile alert ends_at res e)
    unfolding ingest_existing accounted
    existing-OneMore alert ends_at e =
        Returns-if _ (is_resolved alert.status && is_firing e.status) _ _
          (Returns-bind _ (modify (set_event e.id (closed rt now meanwhile ends_at))) _ λ u.
            behind res (on_event_transition rt now (closed rt now meanwhile ends_at e) resolved)
              (λ v.
                transition TransitionKind.resolved e.id
                  (record res { resolved = suc res.resolved }))
              (λ v. (refl, omega arith)))
          (Returns-if _ (is_firing alert.status && is_resolved e.status) _ _
            (Returns-bind _ (modify (set_event e.id (opened rt now meanwhile))) _ λ u.
              behind res (on_event_transition rt now (opened rt now meanwhile e) firing)
                (λ v.
                  transition TransitionKind.reopened e.id
                    (record res { reopened = suc res.reopened }))
                (λ v. (refl, omega arith)))
            (behind res (modify (set_event e.id (touched rt now meanwhile)))
              (λ v. record res { repeats = suc res.repeats }) (λ v. (refl, omega arith))))

    created-OneMore :
        (e : AlertEvent) → Returns (OneMore res) (ingest_created rt now meanwhile res e)
    unfolding ingest_created accounted
    created-OneMore e =
        Returns-if _ (is_firing e.status) _ _
          (behind res (on_event_transition rt now e firing)
            (λ v. transition TransitionKind.created e.id (record res { created = suc res.created }))
            (λ v. (refl, omega arith)))
          (Returns-pure _ _ (refl, omega arith))

    insert-OneMore :
        (cluster : Cluster) (alert : AlertmanagerAlert) (starts_at : ℕ) (ends_at team_id : Option ℕ)
        → Returns
            (OneMore res)
            (insert_event rt now meanwhile cluster alert starts_at ends_at team_id res)
    unfolding insert_event
    insert-OneMore cluster alert starts_at ends_at team_id =
        Returns-bind _ (modify meanwhile) _ λ u.
          Returns-state _
            (λ db.
              insert_or_existing rt now meanwhile cluster alert starts_at ends_at team_id res
                (any (has_identity cluster.id alert.fingerprint starts_at) db.events))
            λ db. by_conflict (any (has_identity cluster.id alert.fingerprint starts_at) db.events)
      where
        by_existing :
            (o : Option AlertEvent)
            → Returns (OneMore res) (existing_or_raise rt now meanwhile alert ends_at res o)
        by_existing none = Returns-raise _ integrity
        by_existing (some e) = existing-OneMore alert ends_at e

        by_conflict :
            (b : Bool)
            → Returns
                (OneMore res)
                (insert_or_existing rt now meanwhile cluster alert starts_at ends_at team_id res b)
        by_conflict true =
            Returns-bind _ (get_existing cluster.id alert.fingerprint starts_at) _ by_existing
        by_conflict false =
            Returns-state _ (λ db. insert_new db)
              λ db.
                Returns-bind _ (modify (add_event (created_at db))) _
                  λ u. created-OneMore (created_at db)
          where
            created_at : Db → AlertEvent
            created_at db =
                new_event rt now meanwhile db.next_event_id cluster alert starts_at ends_at team_id

            insert_new : Db → Exec IngestResult
            insert_new db =
                modify (add_event (created_at db))
                >> ingest_created rt now meanwhile res (created_at db)

    heartbeat-OneMore :
        (cluster : Cluster) → Returns (OneMore res) (ingest_heartbeat rt now meanwhile cluster res)
    unfolding ingest_heartbeat accounted
    heartbeat-OneMore cluster =
        Returns-bind _ (modify (set_cluster cluster.id (beat rt now meanwhile))) _ λ u.
          behind res (recover_from rt now meanwhile cluster.id (is_missing cluster.heartbeat_state))
            (seen rt now meanwhile res) (λ ts. (refl, omega arith))

    identified-OneMore :
        (cluster : Cluster) (alert : AlertmanagerAlert) (t : Option ℕ)
        → Returns (OneMore res) (ingest_identified rt now meanwhile cluster alert t res)
    unfolding ingest_identified accounted
    identified-OneMore cluster alert none = Returns-pure _ _ (refl, omega arith)
    identified-OneMore cluster alert (some starts_at) =
        Returns-bind _ (resolve_team_id (lookup "kam_team" alert.labels)) _ λ team_id.
          Returns-bind _ (get_existing cluster.id alert.fingerprint starts_at) _
            (by_existing team_id)
      where
        by_existing :
            (team_id : Option ℕ) (o : Option AlertEvent)
            → Returns
                (OneMore res)
                (insert_or_update rt now meanwhile cluster alert starts_at team_id res o)
        by_existing team_id none = insert-OneMore cluster alert starts_at (end_of rt alert) team_id
        by_existing team_id (some e) = existing-OneMore alert (end_of rt alert) e

    one-OneMore :
        (cluster : Cluster) (alert : AlertmanagerAlert)
        → Returns (OneMore res) (ingest_one rt now meanwhile cluster alert res)
    unfolding ingest_one
    one-OneMore cluster alert =
        Returns-if _ (is_heartbeat cluster alert) _ _ (heartbeat-OneMore cluster)
          (identified-OneMore cluster alert (start_of rt alert))

  -- After so many alerts, each of them is received and accounted for.
  abbrev After : List AlertmanagerAlert → IngestResult → IngestResult → Type 0
  After alerts res res' =
      (res'.received ≡ res.received + length alerts)
      × (accounted res' ≡ accounted res + length alerts)

  all-After :
      (cluster_id : ℕ) (alerts : List AlertmanagerAlert) (res : IngestResult)
      → Returns (After alerts res) (ingest_all rt now meanwhile cluster_id alerts res)
  unfolding ingest_all accounted
  all-After cluster_id [] res = Returns-pure _ _ (omega arith, omega arith)
  all-After cluster_id (alert ∷ alerts) res =
      Returns-then (OneMore counted) _ _ _
        (Returns-state _ (λ db. ingest_into rt now meanwhile alert res (get_cluster db cluster_id))
          λ db. by_cluster (get_cluster db cluster_id))
        λ next one.
          Returns-weaken _ _ _
            (λ last more. (omega (arith, one.0, more.0), omega (arith, one.1, more.1)))
            (all-After cluster_id alerts next)
    where
      counted : IngestResult
      counted = record res { received = suc res.received }

      by_cluster :
          (o : Option Cluster)
          → Returns (OneMore counted) (ingest_into rt now meanwhile alert res o)
      by_cluster none = Returns-raise _ assertion
      by_cluster (some cluster) = one-OneMore counted cluster alert

  -- When a webhook is ingested without an exception, every alert of it is received and counted under
  -- exactly one outcome: the seven outcome counters add up to the number of alerts.
  pub ingest_webhook-accounted :
      (cluster_id : ℕ) (alerts : List AlertmanagerAlert) (db : Db) (res : IngestResult)
      → (ingest_webhook rt now meanwhile cluster_id alerts db).0 ≡ ok res
      → (res.received ≡ length alerts) × (accounted res ≡ length alerts)
  unfolding ingest_webhook accounted
  ingest_webhook-accounted cluster_id alerts db res h =
      let (r, a) = (all-After cluster_id alerts (no_result rt now meanwhile)).at db res h in
      (omega (arith, r), omega (arith, a))
