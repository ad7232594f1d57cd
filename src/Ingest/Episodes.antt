-- ===== src/Ingest/Episodes.antt =====
-- `ingest_webhook` of backend/app/services/ingest.py records no episode of an alert twice.
use k8s_alert_manager.Prelude.{ℕ, Option, none, some, List, [], ◌∷◌}
use k8s_alert_manager.Runtime.{Runtime}
use k8s_alert_manager.Models.Cluster.{Cluster, is_missing}
use k8s_alert_manager.Models.Db.{Db, get_cluster, set_cluster}
use k8s_alert_manager.Exec.{assertion, modify}
use k8s_alert_manager.Exec.Keeps.{Steps, Steps-pure, Steps-raise, Steps-bind, Steps-if}
use k8s_alert_manager.Ingest.{AlertmanagerAlert, IngestResult}
use k8s_alert_manager.Ingest.Alerts.{
  start_of, is_heartbeat, beat, seen, recover_from, ingest_heartbeat, ingest_one, ingest_into,
  ingest_all, no_result, ingest_webhook,
}
use k8s_alert_manager.Ingest.Identity.{
  UniqueIdentities, KeepsUnique, KeepsUnique-preorder, KeepsUnique-of_Frame, set_event-KeepsUnique,
  add_event-KeepsUnique,
}
use k8s_alert_manager.Ingest.Parts.{Parts, recover_from-Steps}
use k8s_alert_manager.Ingest.Steps.{identified-Steps}

-- Code that leaves the events alone.
set_cluster-KeepsUnique :
    (id : ℕ) (g : Cluster → Cluster) → Steps KeepsUnique (modify (set_cluster id g))
set_cluster-KeepsUnique id g = record { at = λ db u. record { at_identity = u.at_identity } }

unique-Parts :
    (meanwhile : Db → Db)
    → ((db : Db) → UniqueIdentities db → UniqueIdentities (meanwhile db))
    → Parts KeepsUnique meanwhile
unique-Parts meanwhile others = record {
  order = KeepsUnique-preorder;
  frame = KeepsUnique-of_Frame;
  sets = set_event-KeepsUnique;
  inserts = add_event-KeepsUnique;
  others = others;
}

module _ (rt : Runtime) (now : ℕ) (meanwhile : Db → Db)
    (others : (db : Db) → UniqueIdentities db → UniqueIdentities (meanwhile db)) where
  heartbeat-KeepsUnique :
      (cluster : Cluster) (res : IngestResult)
      → Steps KeepsUnique (ingest_heartbeat rt now meanwhile cluster res)
  unfolding ingest_heartbeat
  heartbeat-KeepsUnique cluster res =
      Steps-bind KeepsUnique-preorder (modify (set_cluster cluster.id (beat rt now meanwhile))) _
        (set_cluster-KeepsUnique cluster.id (beat rt now meanwhile))
        λ u.
          Steps-bind KeepsUnique-preorder
            (recover_from rt now meanwhile cluster.id (is_missing cluster.heartbeat_state)) _
            (recover_from-Steps (unique-Parts meanwhile others) rt now cluster.id
              (is_missing cluster.heartbeat_state))
            λ ts. Steps-pure KeepsUnique-preorder (seen rt now meanwhile res ts)

  all-KeepsUnique :
      (cluster_id : ℕ) (alerts : List AlertmanagerAlert) (res : IngestResult)
      → Steps KeepsUnique (ingest_all rt now meanwhile cluster_id alerts res)
  unfolding ingest_all ingest_one
  all-KeepsUnique cluster_id [] res = Steps-pure KeepsUnique-preorder res
  all-KeepsUnique cluster_id (alert ∷ alerts) res =
      Steps-bind KeepsUnique-preorder
        (λ db. ingest_into rt now meanwhile alert res (get_cluster db cluster_id) db) _
        (record { at = λ db. (by_cluster (get_cluster db cluster_id)).at db })
        (all-KeepsUnique cluster_id alerts)
    where
      by_cluster :
          (o : Option Cluster) → Steps KeepsUnique (ingest_into rt now meanwhile alert res o)
      by_cluster none = Steps-raise KeepsUnique-preorder assertion
      by_cluster (some cluster) =
          Steps-if KeepsUnique-preorder (is_heartbeat cluster alert) _ _
            (λ _. heartbeat-KeepsUnique cluster _)
            (λ _.
              identified-Steps rt now meanwhile (unique-Parts meanwhile others) cluster alert _
                (start_of rt alert))

  -- Ingesting a webhook, returning or raising, keeps the identities (cluster, fingerprint, start) of
  -- the events distinct, if what other sessions commit in between does.
  pub ingest_webhook-UniqueIdentities :
      (cluster_id : ℕ) (alerts : List AlertmanagerAlert) (db : Db)
      → UniqueIdentities db
      → UniqueIdentities (ingest_webhook rt now meanwhile cluster_id alerts db).1
  unfolding ingest_webhook
  ingest_webhook-UniqueIdentities cluster_id alerts db =
      (all-KeepsUnique cluster_id alerts (no_result rt now meanwhile)).at db
