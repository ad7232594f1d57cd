-- ===== src/Ingest/Alerts.antt =====
-- `_ingest_one` and `ingest_webhook` of backend/app/services/ingest.py.
use k8s_alert_manager.Prelude.{
  ℕ, suc, Bool, true, false, ◌&&◌, Option, none, some, List, [], ◌∷◌, ◌++◌, any, lookup, str_eq,
  if◌then◌else◌,
}
use k8s_alert_manager.Runtime.{Runtime}
use k8s_alert_manager.Models.Alert.{EventStatus, is_firing, is_resolved, AlertEvent}
use k8s_alert_manager.Models.Cluster.{Cluster, HeartbeatState, is_missing}
use k8s_alert_manager.Models.Db.{Db, get_cluster, set_event, set_cluster}
use k8s_alert_manager.Exec.{Exec, integrity, assertion, pure, raise, modify, ◌>>=◌, ◌>>◌}
use k8s_alert_manager.Route.Notification.{truthy}
use k8s_alert_manager.Ingest.{
  AlertmanagerAlert, TransitionKind, AlertTransition, IngestResult, parse_am_timestamp,
  resolve_team_id, has_identity, get_existing, severity_of, alertname_of, transition, add_event,
  on_event_transition, resolve_heartbeat_lost_event,
}

-- A usable identity needs a real startsAt; a bad endsAt counts as an alert that is not resolved.
abbrev pub start_of : Runtime → AlertmanagerAlert → Option ℕ
start_of rt alert = elim (parse_am_timestamp rt alert.starts_at) [ none ↦ none | some t ↦ t ]

abbrev pub end_of : Runtime → AlertmanagerAlert → Option ℕ
end_of rt alert = elim (parse_am_timestamp rt alert.ends_at) [ none ↦ none | some t ↦ t ]

abbrev pub is_heartbeat : Cluster → AlertmanagerAlert → Bool
is_heartbeat cluster alert =
    cluster.heartbeat_enabled && str_eq (alertname_of alert) cluster.heartbeat_alertname

-- `meanwhile` is what other sessions commit between the lookup of an event and its insert.
module _ (rt : Runtime) (now : ℕ) (meanwhile : Db → Db) where
  abbrev pub beat : Cluster → Cluster
  beat c = record c { last_heartbeat_at = some now; heartbeat_state = HeartbeatState.ok }

  abbrev pub seen : IngestResult → List AlertTransition → IngestResult
  seen res ts = record res {
    heartbeats_seen = suc res.heartbeats_seen;
    transitions = res.transitions ++ ts;
  }

  abbrev pub recover_from : ℕ → (was_missing : Bool) → Exec (List AlertTransition)
  recover_from cluster_id true = resolve_heartbeat_lost_event rt now cluster_id
  recover_from cluster_id false = pure []

  unfoldable pub ingest_heartbeat : Cluster → IngestResult → Exec IngestResult
  unfolding resolve_heartbeat_lost_event is_missing
  ingest_heartbeat cluster res = do
    modify (set_cluster cluster.id beat)
    transitions ← recover_from cluster.id (is_missing cluster.heartbeat_state)
    pure (seen res transitions)

  abbrev pub new_event : ℕ → Cluster → AlertmanagerAlert → ℕ → Option ℕ → Option ℕ → AlertEvent
  new_event id cluster alert starts_at ends_at team_id = record {
    id = id;
    cluster_id = cluster.id;
    cluster_name = cluster.name;
    fingerprint = alert.fingerprint;
    status = alert.status;
    alertname = alertname_of alert;
    severity = severity_of rt alert.labels;
    namespace = truthy (lookup "namespace" alert.labels);
    labels = alert.labels;
    annotations = alert.annotations;
    team_id = team_id;
    starts_at = starts_at;
    ends_at = if is_resolved alert.status then ends_at else none;
    generator_url = alert.generator_url;
    first_received_at = now;
    last_received_at = now;
    receive_count = 1;
    suppressed_by_rule_id = none;
    acknowledged_at = none;
    acknowledged_by = none;
    assignee_user_id = none;
    is_test = false;
  }

  abbrev pub touched : AlertEvent → AlertEvent
  touched e = record e { last_received_at = now; receive_count = suc e.receive_count }

  abbrev pub closed : Option ℕ → AlertEvent → AlertEvent
  closed ends_at e = record (touched e) { status = EventStatus.resolved; ends_at = ends_at }

  abbrev pub opened : AlertEvent → AlertEvent
  opened e = record (touched e) { status = EventStatus.firing; ends_at = none }

  -- An event that is there already: resolved, opened again, or a repeat.
  unfoldable pub ingest_existing :
      AlertmanagerAlert → Option ℕ → IngestResult → AlertEvent → Exec IngestResult
  unfolding on_event_transition is_firing is_resolved
  ingest_existing alert ends_at res e =
      if is_resolved alert.status && is_firing e.status
      then (do
        modify (set_event e.id (closed ends_at))
        on_event_transition rt now (closed ends_at e) EventStatus.resolved
        pure (transition TransitionKind.resolved e.id (record res { resolved = suc res.resolved })))
      else if is_firing alert.status && is_resolved e.status
      then (do
        modify (set_event e.id opened)
        on_event_transition rt now (opened e) EventStatus.firing
        pure (transition TransitionKind.reopened e.id (record res { reopened = suc res.reopened })))
      else (do modify (set_event e.id touched); pure (record res { repeats = suc res.repeats }))

  -- Behind a successful insert.
  unfoldable pub ingest_created : IngestResult → AlertEvent → Exec IngestResult
  unfolding on_event_transition is_firing
  ingest_created res e =
      if is_firing e.status
      then (do
        on_event_transition rt now e EventStatus.firing
        pure (transition TransitionKind.created e.id (record res { created = suc res.created })))
      else pure (record res { created_resolved = suc res.created_resolved })

  abbrev pub existing_or_raise :
      AlertmanagerAlert → Option ℕ → IngestResult → Option AlertEvent → Exec IngestResult
  existing_or_raise alert ends_at res none = raise integrity
  existing_or_raise alert ends_at res (some e) = ingest_existing alert ends_at res e

  -- The insert, in a savepoint: the unique identity makes it fail when another session was first.
  abbrev pub insert_or_existing :
      Cluster
      → AlertmanagerAlert
      → ℕ
      → Option ℕ
      → Option ℕ
      → IngestResult
      → Bool
      → Exec IngestResult
  insert_or_existing cluster alert starts_at ends_at team_id res true = do
    existing ← get_existing cluster.id alert.fingerprint starts_at
    existing_or_raise alert ends_at res existing
  insert_or_existing cluster alert starts_at ends_at team_id res false = λ db.
      let e = new_event db.next_event_id cluster alert starts_at ends_at team_id in
      (do modify (add_event e); ingest_created res e) db

  unfoldable pub insert_event :
      Cluster → AlertmanagerAlert → ℕ → Option ℕ → Option ℕ → IngestResult → Exec IngestResult
  unfolding has_identity get_existing ingest_existing ingest_created is_resolved
  insert_event cluster alert starts_at ends_at team_id res = do
    modify meanwhile
    (λ db.
        insert_or_existing cluster alert starts_at ends_at team_id res
          (any (has_identity cluster.id alert.fingerprint starts_at) db.events) db)

  abbrev pub insert_or_update :
      Cluster
      → AlertmanagerAlert
      → ℕ
      → Option ℕ
      → IngestResult
      → Option AlertEvent
      → Exec IngestResult
  insert_or_update cluster alert starts_at team_id res none =
      insert_event cluster alert starts_at (end_of rt alert) team_id res
  insert_or_update cluster alert starts_at team_id res (some e) =
      ingest_existing alert (end_of rt alert) res e

  unfoldable pub ingest_identified :
      Cluster → AlertmanagerAlert → Option ℕ → IngestResult → Exec IngestResult
  unfolding resolve_team_id get_existing insert_event ingest_existing
  ingest_identified cluster alert none res = pure (record res { skipped = suc res.skipped })
  ingest_identified cluster alert (some starts_at) res = do
    team_id ← resolve_team_id (lookup "kam_team" alert.labels)
    existing ← get_existing cluster.id alert.fingerprint starts_at
    insert_or_update cluster alert starts_at team_id res existing

  unfoldable pub ingest_one : Cluster → AlertmanagerAlert → IngestResult → Exec IngestResult
  unfolding ingest_heartbeat ingest_identified
  ingest_one cluster alert res =
      if is_heartbeat cluster alert
      then ingest_heartbeat cluster res
      else ingest_identified cluster alert (start_of rt alert) res

  -- The cluster is an object of the session: each alert sees what the alerts before it set.
  abbrev pub ingest_into : AlertmanagerAlert → IngestResult → Option Cluster → Exec IngestResult
  ingest_into alert res none = raise assertion
  ingest_into alert res (some cluster) =
      ingest_one cluster alert (record res { received = suc res.received })

  unfoldable pub ingest_all : ℕ → List AlertmanagerAlert → IngestResult → Exec IngestResult
  unfolding ingest_one
  ingest_all cluster_id [] res = pure res
  ingest_all cluster_id (alert ∷ alerts) res = do
    next ← (λ db. ingest_into alert res (get_cluster db cluster_id) db)
    ingest_all cluster_id alerts next

  abbrev pub no_result : IngestResult
  no_result = record {
    received = 0;
    created = 0;
    created_resolved = 0;
    resolved = 0;
    reopened = 0;
    repeats = 0;
    heartbeats_seen = 0;
    skipped = 0;
    transitions = [];
  }

  unfoldable pub ingest_webhook : ℕ → List AlertmanagerAlert → Exec IngestResult
  unfolding ingest_all
  ingest_webhook cluster_id alerts = ingest_all cluster_id alerts no_result
