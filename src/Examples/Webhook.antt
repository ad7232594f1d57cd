-- ===== src/Examples/Webhook.antt =====
-- A webhook at a concrete database: backend/app/services/ingest.py.
use k8s_alert_manager.Prelude.{◌≡◌, refl, [], ◌∷◌, arith}
use k8s_alert_manager.Ingest.{AlertmanagerAlert, IngestResult, TransitionKind}
use k8s_alert_manager.Ingest.Alerts.{ingest_webhook}
use k8s_alert_manager.Ingest.Counting.{accounted, ingest_webhook-accounted}
use k8s_alert_manager.Ingest.Identity.{UniqueIdentities}
use k8s_alert_manager.Ingest.Episodes.{ingest_webhook-UniqueIdentities}
use k8s_alert_manager.Examples.Samples.{runtime, database, alert, undated}

ingest_webhook-UniqueIdentities_example :
    UniqueIdentities (ingest_webhook runtime 200 (λ db. db) 1 (alert ∷ alert ∷ []) database).1
ingest_webhook-UniqueIdentities_example =
    ingest_webhook-UniqueIdentities runtime 200 (λ db. db) (λ db u. u) 1 (alert ∷ alert ∷ [])
      database (record { at_identity = λ c f t. ground arith })

abbrev result : IngestResult
result = record {
  received = 3;
  created = 1;
  created_resolved = 0;
  resolved = 0;
  reopened = 0;
  repeats = 1;
  heartbeats_seen = 0;
  skipped = 1;
  transitions = record { kind = TransitionKind.created; event = 2 } ∷ [];
}

-- An alert that no team is named by.
abbrev lone : AlertmanagerAlert
lone = record alert { labels = ("alertname", "PodDown") ∷ [] }

ingest_webhook-accounted_example : (result.received ≡ 3) × (accounted result ≡ 3)
ingest_webhook-accounted_example =
    ingest_webhook-accounted runtime 200 (λ db. db) 1 (lone ∷ undated ∷ lone ∷ []) database result
      (unfold ingest_webhook in refl)
