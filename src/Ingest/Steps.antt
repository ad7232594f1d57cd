-- ===== src/Ingest/Steps.antt =====
-- A relation between databases that each step of an ingest satisfies is satisfied by the ingest of one
-- alert that is not a heartbeat: `_ingest_one` of backend/app/services/ingest.py.
use k8s_alert_manager.Prelude.{
  ℕ, suc, ◌≡◌, refl, Bool, true, false, ◌&&◌, Option, none, some, any, lookup,
}
use k8s_alert_manager.Runtime.{Runtime}
use k8s_alert_manager.Models.Alert.{firing, resolved, is_firing, is_resolved, AlertEvent}
use k8s_alert_manager.Models.Cluster.{Cluster}
use k8s_alert_manager.Models.Db.{Db}
use k8s_alert_manager.Exec.{integrity}
use k8s_alert_manager.Exec.Keeps.{Steps, Steps-pure, Steps-raise, Steps-bind, Steps-if}
use k8s_alert_manager.Route.Frame.{SameIdentity}
use k8s_alert_manager.Ingest.{
  AlertmanagerAlert, IngestResult, has_identity, get_existing, resolve_team_id, on_event_transition,
  add_event,
}
use k8s_alert_manager.Ingest.Alerts.{
  end_of, new_event, touched, closed, opened, ingest_existing, ingest_created, existing_or_raise,
  insert_or_existing, insert_event, insert_or_update, ingest_identified,
}
use k8s_alert_manager.Ingest.Parts.{
  Parts, get_existing-Steps, resolve_team_id-Steps, transition-Steps, update-Steps,
}

module _ {R : Db → Db → Type 0} (rt : Runtime) (now : ℕ) (meanwhile : Db → Db)
    (parts : Parts R meanwhile) where
  module _ (alert : AlertmanagerAlert) (ends_at : Option ℕ) (res : IngestResult) where
    existing-Steps :
        (e : AlertEvent) → Steps R (ingest_existing rt now meanwhile alert ends_at res e)
    unfolding ingest_existing
    existing-Steps e =
        Steps-if parts.order (is_resolved alert.status && is_firing e.status) _ _
          (λ _.
            update-Steps parts rt now e (closed rt now meanwhile ends_at) resolved _
              (λ x. same x _ refl refl refl refl) (Steps-pure parts.order _))
          (λ _.
            Steps-if parts.order (is_firing alert.status && is_resolved e.status) _ _
              (λ _.
                update-Steps parts rt now e (opened rt now meanwhile) firing _
                  (λ x. same x _ refl refl refl refl) (Steps-pure parts.order _))
              (λ _.
                Steps-bind parts.order _ _
                  (parts.sets e.id (touched rt now meanwhile) (λ x. same x _ refl refl refl refl))
                  λ u. Steps-pure parts.order (record res { repeats = suc res.repeats })))
      where
        same :
            (x y : AlertEvent)
            → y.id ≡ x.id
            → y.cluster_id ≡ x.cluster_id
            → y.fingerprint ≡ x.fingerprint
            → y.starts_at ≡ x.starts_at
            → SameIdentity x y
        same x y a b c d = record { id = a; cluster_id = b; fingerprint = c; starts_at = d }

    existing_or_raise-Steps :
        (o : Option AlertEvent) → Steps R (existing_or_raise rt now meanwhile alert ends_at res o)
    existing_or_raise-Steps none = Steps-raise parts.order integrity
    existing_or_raise-Steps (some e) = existing-Steps e

    created-Steps : (e : AlertEvent) → Steps R (ingest_created rt now meanwhile res e)
    unfolding ingest_created
    created-Steps e =
        Steps-if parts.order (is_firing e.status) _ _
          (λ _.
            Steps-bind parts.order (on_event_transition rt now e firing) _
              (transition-Steps parts rt now e firing) λ u. Steps-pure parts.order _)
          (λ _. Steps-pure parts.order _)

  module _ (cluster : Cluster) (alert : AlertmanagerAlert) (starts_at : ℕ)
      (ends_at team_id : Option ℕ) (res : IngestResult) where
    abbrev taken : Db → Bool
    taken db = any (has_identity cluster.id alert.fingerprint starts_at) db.events

    insert-Steps :
        Steps R (insert_event rt now meanwhile cluster alert starts_at ends_at team_id res)
    unfolding insert_event
    insert-Steps = record {
      at = λ db.
          parts.order.then_ db (meanwhile db) _ (parts.others db)
            (by_taken (meanwhile db) (taken (meanwhile db)) refl);
    }
      where
        by_taken :
            (db : Db) (b : Bool)
            → taken db ≡ b
            → R db
                (insert_or_existing rt now meanwhile cluster alert starts_at ends_at team_id res b
                  db).1
        by_taken db true e =
            (Steps-bind parts.order (get_existing cluster.id alert.fingerprint starts_at) _
                (get_existing-Steps parts cluster.id alert.fingerprint starts_at)
                (existing_or_raise-Steps alert ends_at res)).at
              db
        by_taken db false e =
            let event =
              new_event rt now meanwhile db.next_event_id cluster alert starts_at ends_at team_id in
            parts.order.then_ db (add_event event db) _ (parts.inserts event db e)
              ((created-Steps alert ends_at res event).at (add_event event db))

  pub identified-Steps :
      (cluster : Cluster) (alert : AlertmanagerAlert) (res : IngestResult) (t : Option ℕ)
      → Steps R (ingest_identified rt now meanwhile cluster alert t res)
  unfolding ingest_identified
  identified-Steps cluster alert res none = Steps-pure parts.order _
  identified-Steps cluster alert res (some starts_at) =
      Steps-bind parts.order (resolve_team_id (lookup "kam_team" alert.labels)) _
        (resolve_team_id-Steps parts (lookup "kam_team" alert.labels))
        λ team_id.
          Steps-bind parts.order (get_existing cluster.id alert.fingerprint starts_at) _
            (get_existing-Steps parts cluster.id alert.fingerprint starts_at) (by_existing team_id)
    where
      by_existing :
          (team_id : Option ℕ) (o : Option AlertEvent)
          → Steps R (insert_or_update rt now meanwhile cluster alert starts_at team_id res o)
      by_existing team_id none = insert-Steps cluster alert starts_at (end_of rt alert) team_id res
      by_existing team_id (some e) = existing-Steps alert (end_of rt alert) res e
