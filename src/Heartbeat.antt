-- ===== src/Heartbeat.antt =====
-- backend/app/worker/heartbeat.py: the sweep that notices a cluster whose heartbeat has stopped.
pub mod Alarms
pub mod Missing
use Prim.Native.String.{◌++◌ as ◌<>◌}
use k8s_alert_manager.Prelude.{
  ℕ, suc, ◌+◌, ◌*◌, String, Bool, true, false, not, ◌&&◌, ◌||◌, Option, none, some, map_option,
  List, [], ◌∷◌, ◌++◌, map, filter, length, leb, str_eq, if◌then◌else◌,
}
use k8s_alert_manager.Text.{str}
use k8s_alert_manager.Runtime.{Runtime}
use k8s_alert_manager.Models.Alert.{EventStatus, Labels}
use k8s_alert_manager.Models.Cluster.{Cluster, HeartbeatState, is_ok}
use k8s_alert_manager.Models.Db.{Db, get_cluster, get_team, set_cluster}
use k8s_alert_manager.Exec.{Exec, Result, ok, err, pure, modify, ◌>>=◌, ◌>>◌}
use k8s_alert_manager.Ingest.{AlertmanagerAlert, IngestResult, heartbeat_lost_fingerprint}
use k8s_alert_manager.Ingest.Alerts.{ingest_webhook}

abbrev pub heartbeat_lost_alertname : String
heartbeat_lost_alertname = "KamClusterHeartbeatLost"

abbrev pub resolve_team_slug : Db → Option ℕ → Option String
resolve_team_slug db none = none
resolve_team_slug db (some team_id) = map_option (λ t. t.slug) (get_team db team_id)

abbrev pub team_label : Option String → Labels
team_label none = []
team_label (some slug) = ("kam_team", slug) ∷ []

-- A cluster that the sweep looks at.
unfoldable pub is_candidate : Cluster → Bool
unfolding is_ok
is_candidate c = c.enabled && c.heartbeat_enabled && is_ok c.heartbeat_state

-- now - last_heartbeat_at > timeout, for a heartbeat that was recorded
abbrev pub is_overdue : ℕ → ℕ → Option ℕ → Bool
is_overdue now timeout_seconds none = false
is_overdue now timeout_seconds (some last) = not (leb now (last + timeout_seconds * 1000000))

module _ (rt : Runtime) (now : ℕ) (meanwhile : Db → Db) where
  abbrev pub heartbeat_lost_alert : Cluster → Option String → AlertmanagerAlert
  heartbeat_lost_alert cluster slug = record {
    status = EventStatus.firing;
    labels =
        ("alertname", heartbeat_lost_alertname)
        ∷ ("cluster", cluster.name)
        ∷ ("severity", "critical")
        ∷ team_label slug;
    annotations =
        (
          "description",
          "클러스터 '"
              <> cluster.display_name
              <> "'의 Watchdog 수신이 "
              <> str cluster.heartbeat_timeout_seconds
              <> "s 동안 끊겼습니다",
        )
        ∷ [];
    starts_at = some (rt.isoformat now);
    ends_at = none;
    fingerprint = heartbeat_lost_fingerprint cluster.id;
    generator_url = none;
  }

  unfoldable pub inject_heartbeat_lost : Cluster → Exec IngestResult
  unfolding ingest_webhook heartbeat_lost_fingerprint str
  inject_heartbeat_lost cluster db =
      let alert = heartbeat_lost_alert cluster (resolve_team_slug db cluster.heartbeat_team_id) in
      ingest_webhook rt now meanwhile cluster.id (alert ∷ []) db

  abbrev pub set_missing : Cluster → Cluster
  set_missing c = record c { heartbeat_state = HeartbeatState.missing }

  -- Why a cluster is flipped: it is still a candidate, its heartbeat is overdue, and the alert would
  -- not count as a heartbeat itself.
  unfoldable pub flips : Cluster → Bool
  unfolding is_candidate
  flips c =
      is_candidate c
      && is_overdue now c.heartbeat_timeout_seconds c.last_heartbeat_at
      && not (str_eq c.heartbeat_alertname heartbeat_lost_alertname)

  abbrev pub flip : Cluster → Exec (Option String)
  flip cluster = do
    modify (set_cluster cluster.id set_missing)
    (λ db. (inject_heartbeat_lost (set_missing cluster) >>= λ res. pure (some cluster.name)) db)

  abbrev pub check_found : Option Cluster → Exec (Option String)
  check_found none = pure none
  check_found (some cluster) = if flips cluster then flip cluster else pure none

  unfoldable pub check_and_flip_one : ℕ → Exec (Option String)
  unfolding flips inject_heartbeat_lost
  check_and_flip_one cluster_id db = check_found (get_cluster db cluster_id) db

  -- The commit of a session, or its rollback; and the name, if there is one.
  abbrev pub checked : Db → Result (Option String) × Db → List String × Db
  checked db (ok none, db') = ([], db')
  checked db (ok (some name), db') = (name ∷ [], db')
  checked db (err e, db') = ([], db)

  unfoldable pub sweep_all : List ℕ → Db → List String × Db
  unfolding check_and_flip_one
  sweep_all [] db = ([], db)
  sweep_all (id ∷ ids) db =
      let (names, db1) = checked db (check_and_flip_one id db) in
      let (more, db2) = sweep_all ids db1 in (names ++ more, db2)

  abbrev pub candidate_ids : Db → List ℕ
  candidate_ids db = map (λ c. c.id) (filter is_candidate db.clusters)

  -- The number of candidates, the names of the clusters that went missing, and the database.
  unfoldable pub sweep : Db → ℕ × List String × Db
  unfolding is_candidate sweep_all
  sweep db =
      let ids = candidate_ids db in let (names, db') = sweep_all ids db in (length ids, names, db')
