-- ===== src/Heartbeat/Missing.antt =====
-- A flip of backend/app/worker/heartbeat.py lasts: the alert that it injects is no heartbeat.
use k8s_alert_manager.Prelude.{
  ℕ, String, ◌≡◌, refl, sym, ap, ◌∙◌, subst, Bool, true, false, Option, none, some, [], ◌∷◌, find,
  find-passes, find-update_where, str_eq, eq_iff, ◌==◌, ==_iff, if◌then◌else◌, inl, inr, Bool-cases,
  arith,
}
use k8s_alert_manager.Runtime.{Runtime}
use k8s_alert_manager.Models.Cluster.{Cluster, HeartbeatState}
use k8s_alert_manager.Models.Db.{Db, get_cluster, set_cluster}
use k8s_alert_manager.Exec.{Result, ok, err, pure, continue, ◌>>=◌}
use k8s_alert_manager.Exec.Keeps.{Steps, Steps-bind, Steps-pure, Steps-if}
use k8s_alert_manager.Ingest.{AlertmanagerAlert, IngestResult}
use k8s_alert_manager.Ingest.Alerts.{
  is_heartbeat, ingest_one, ingest_into, ingest_all, ingest_webhook, no_result, start_of,
}
use k8s_alert_manager.Ingest.Parts.{Parts}
use k8s_alert_manager.Ingest.Steps.{identified-Steps}
use k8s_alert_manager.Heartbeat.Alarms.{flips-MayAlarm}
use k8s_alert_manager.Heartbeat.{
  heartbeat_lost_alertname, heartbeat_lost_alert, inject_heartbeat_lost, set_missing, flips,
  check_found, check_and_flip_one, flip, resolve_team_slug,
}

abbrev SameClusters : Db → Db → Type 0
SameClusters db db' = db'.clusters ≡ db.clusters

SameClusters-Parts :
    (meanwhile : Db → Db)
    → ((db : Db) → (meanwhile db).clusters ≡ db.clusters)
    → Parts SameClusters meanwhile
SameClusters-Parts meanwhile others = record {
  order = record { same = λ db. refl; then_ = λ a b c f g. g ∙ f };
  frame = λ m s. record { at = λ db. (s.at db).clusters };
  sets = λ id g h. record { at = λ db. refl };
  inserts = λ e db free. refl;
  others = others;
}

str_eq-off : (s t : String) → str_eq s t ≡ false → str_eq t s ≡ false
str_eq-off s t h = elim (Bool-cases (str_eq t s)) [
  | inl on ↦
      absurd (ground (arith, h, on, ap (λ u. str_eq s u) ((eq_iff t s).0 on), (eq_iff s s).1 refl))
  | inr off ↦ off
]

module _ (rt : Runtime) (now : ℕ) (meanwhile : Db → Db)
    (others : (db : Db) → (meanwhile db).clusters ≡ db.clusters) where
  ingest_into-SameClusters :
      (cluster : Cluster) (alert : AlertmanagerAlert) (res : IngestResult)
      → is_heartbeat cluster alert ≡ false
      → Steps SameClusters (ingest_into rt now meanwhile alert res (some cluster))
  unfolding ingest_one
  ingest_into-SameClusters cluster alert res h =
      Steps-if (SameClusters-Parts meanwhile others).order (is_heartbeat cluster alert) _ _
        (λ on. absurd (ground arith))
        λ off.
          identified-Steps rt now meanwhile (SameClusters-Parts meanwhile others) cluster alert _
            (start_of rt alert)

  one-SameClusters :
      (cluster : Cluster) (alert : AlertmanagerAlert) (db : Db)
      → get_cluster db cluster.id ≡ some cluster
      → is_heartbeat cluster alert ≡ false
      → SameClusters db (ingest_webhook rt now meanwhile cluster.id (alert ∷ []) db).1
  unfolding ingest_webhook ingest_all
  one-SameClusters cluster alert db found h =
      subst
        (λ o.
          SameClusters db
            ((ingest_into rt now meanwhile alert (no_result rt now meanwhile) o
                >>= ingest_all rt now meanwhile cluster.id [])
              db).1)
        (sym found)
        ((Steps-bind (SameClusters-Parts meanwhile others).order
            (ingest_into rt now meanwhile alert (no_result rt now meanwhile) (some cluster))
            (ingest_all rt now meanwhile cluster.id [])
            (ingest_into-SameClusters cluster alert (no_result rt now meanwhile) h)
            λ res. Steps-pure (SameClusters-Parts meanwhile others).order res).at
          db)

  -- The injected alert is not taken for a heartbeat of the cluster, so no cluster is touched.
  inject-SameClusters :
      (cluster : Cluster) (db : Db)
      → get_cluster db cluster.id ≡ some cluster
      → str_eq cluster.heartbeat_alertname heartbeat_lost_alertname ≡ false
      → SameClusters db (inject_heartbeat_lost rt now meanwhile cluster db).1
  unfolding inject_heartbeat_lost
  inject-SameClusters cluster db found other =
      one-SameClusters cluster
        (heartbeat_lost_alert rt now meanwhile cluster
          (resolve_team_slug db cluster.heartbeat_team_id))
        db found
        (ground (arith, str_eq-off cluster.heartbeat_alertname heartbeat_lost_alertname other))

  flip-found :
      (cluster : Cluster) (db : Db)
      → get_cluster db cluster.id ≡ some cluster
      → str_eq cluster.heartbeat_alertname heartbeat_lost_alertname ≡ false
      → get_cluster (flip rt now meanwhile cluster db).1 cluster.id
        ≡ some (set_missing rt now meanwhile cluster)
  flip-found cluster db found other =
      let lost = set_missing rt now meanwhile cluster in
      let flagged = set_cluster cluster.id (set_missing rt now meanwhile) db in
      let here =
        find-update_where (λ c. c.id == cluster.id) (set_missing rt now meanwhile) db.clusters
          cluster (λ c. refl) found in
      let (r, db') = inject_heartbeat_lost rt now meanwhile lost flagged in
      ap (find (λ c. c.id == cluster.id)) (
        kept (inject_heartbeat_lost rt now meanwhile lost flagged).0 _ (some cluster.name)
        ∙ inject-SameClusters lost flagged here other)
      ∙ here
    where
      kept :
          (r : Result IngestResult) (db' : Db) (name : Option String)
          → (continue r (λ res. pure name) db').1.clusters ≡ db'.clusters
      kept (ok res) db' name = refl
      kept (err e) db' name = refl

  -- When a check returns the name of a cluster, a cluster was found at that id, and afterwards that
  -- cluster is found there with the state 'missing' and all else as it was: the alert that is injected
  -- is not taken for a heartbeat. This holds if what other sessions commit in between leaves the
  -- clusters alone.
  pub check_and_flip_one-IsMissing :
      (id : ℕ) (db : Db) (name : String)
      → (check_and_flip_one rt now meanwhile id db).0 ≡ ok (some name)
      → (c : Cluster) × (get_cluster db id ≡ some c)
        × (get_cluster (check_and_flip_one rt now meanwhile id db).1 id
            ≡ some (record c { heartbeat_state = HeartbeatState.missing }))
  unfolding check_and_flip_one
  check_and_flip_one-IsMissing id db name h = by_cluster (get_cluster db id) refl h
    where
      by_flips :
          (c : Cluster)
          → get_cluster db id ≡ some c
          → (b : Bool) → flips rt now meanwhile c ≡ b
          → ((if b then flip rt now meanwhile c else pure none) db).0 ≡ ok (some name)
          → get_cluster ((if b then flip rt now meanwhile c else pure none) db).1 id
            ≡ some (set_missing rt now meanwhile c)
      by_flips c e false k h = absurd (ground arith)
      by_flips c e true k h =
          let same = (==_iff c.id id).0 (find-passes (λ c. c.id == id) db.clusters c e) in
          subst
            (λ n.
              get_cluster (flip rt now meanwhile c db).1 n ≡ some (set_missing rt now meanwhile c))
            same
            (flip-found c db (subst (λ n. get_cluster db n ≡ some c) (sym same) e)
              (flips-MayAlarm rt now meanwhile c k).no_loop)

      by_cluster :
          (o : Option Cluster)
          → get_cluster db id ≡ o
          → (check_found rt now meanwhile o db).0 ≡ ok (some name)
          → (c : Cluster) × (o ≡ some c)
            × (get_cluster (check_found rt now meanwhile o db).1 id
                ≡ some (set_missing rt now meanwhile c))
      by_cluster none e k = absurd (ground arith)
      by_cluster (some c) e k = (c, refl, by_flips c e (flips rt now meanwhile c) refl k)
