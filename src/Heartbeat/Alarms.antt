-- ===== src/Heartbeat/Alarms.antt =====
-- When the sweep of backend/app/worker/heartbeat.py raises an alarm, and when it does not.
use k8s_alert_manager.Prelude.{
  ℕ, ◌+◌, ◌*◌, ◌<◌, String, ◌≡◌, refl, ap, true, false, Option, none, some, List, [], ◌∷◌, str_eq,
  All, find-of_all, ◌==◌, inl, inr, Bool-cases, arith,
}
use k8s_alert_manager.Runtime.{Runtime}
use k8s_alert_manager.Models.Cluster.{Cluster, is_ok}
use k8s_alert_manager.Models.Db.{Db, get_cluster}
use k8s_alert_manager.Exec.{ok}
use k8s_alert_manager.Heartbeat.{
  heartbeat_lost_alertname, is_candidate, is_overdue, flips, check_found, check_and_flip_one,
  sweep_all, candidate_ids, sweep,
}

-- The heartbeat of the cluster was recorded once, and longer ago than its timeout.
pub record IsOverdue (now : ℕ) (c : Cluster) : Type 0 where
  pub last : ℕ
  pub recorded : c.last_heartbeat_at ≡ some last
  pub late : last + c.heartbeat_timeout_seconds * 1000000 < now

pub record MayAlarm (now : ℕ) (c : Cluster) : Type 0 where
  pub enabled : c.enabled ≡ true
  pub heartbeat_enabled : c.heartbeat_enabled ≡ true
  pub state : is_ok c.heartbeat_state ≡ true
  pub overdue : IsOverdue now c
  pub no_loop : str_eq c.heartbeat_alertname heartbeat_lost_alertname ≡ false

module _ (rt : Runtime) (now : ℕ) (meanwhile : Db → Db) where
  pub flips-MayAlarm : (c : Cluster) → flips rt now meanwhile c ≡ true → MayAlarm now c
  unfolding flips is_candidate
  flips-MayAlarm c h = record {
    enabled = ground arith;
    heartbeat_enabled = ground arith;
    state = ground arith;
    overdue = by_last c.last_heartbeat_at refl (ground arith);
    no_loop = ground arith;
  }
    where
      by_last :
          (o : Option ℕ)
          → c.last_heartbeat_at ≡ o
          → is_overdue now c.heartbeat_timeout_seconds o ≡ true
          → IsOverdue now c
      by_last none e k = absurd (ground arith)
      by_last (some t) e k = record { last = t; recorded = e; late = ground arith }

  -- An alarm is only raised for a cluster that is enabled with its heartbeat, in the state 'ok' (so
  -- neither 'unknown' nor already 'missing'), and whose last heartbeat is older than its timeout.
  pub check_and_flip_one-MayAlarm :
      (id : ℕ) (db : Db) (name : String)
      → (check_and_flip_one rt now meanwhile id db).0 ≡ ok (some name)
      → (c : Cluster) × (get_cluster db id ≡ some c) × MayAlarm now c
  unfolding check_and_flip_one
  check_and_flip_one-MayAlarm id db name h = by_cluster (get_cluster db id) refl h
    where
      by_cluster :
          (o : Option Cluster)
          → get_cluster db id ≡ o
          → (check_found rt now meanwhile o db).0 ≡ ok (some name)
          → (c : Cluster) × (get_cluster db id ≡ some c) × MayAlarm now c
      by_cluster none e k = absurd (ground arith)
      by_cluster (some c) e k = elim (Bool-cases (flips rt now meanwhile c)) [
        | inl on ↦ (c, e, flips-MayAlarm c on)
        | inr off ↦ absurd (ground arith)
      ]

  quiet_one :
      (id : ℕ) (db : Db)
      → All (λ c. flips rt now meanwhile c ≡ false) db.clusters
      → check_and_flip_one rt now meanwhile id db ≡ (ok none, db)
  unfolding check_and_flip_one
  quiet_one id db h = by_cluster (get_cluster db id) refl
    where
      by_cluster :
          (o : Option Cluster)
          → get_cluster db id ≡ o
          → check_found rt now meanwhile o db ≡ (ok none, db)
      by_cluster none e = refl
      by_cluster (some c) e = rw (find-of_all _ (λ c. c.id == id) db.clusters c h e) refl

  quiet_each :
      (ids : List ℕ) (db : Db)
      → All (λ c. flips rt now meanwhile c ≡ false) db.clusters
      → sweep_all rt now meanwhile ids db ≡ ([], db)
  unfolding sweep_all
  quiet_each [] db h = refl
  quiet_each (id ∷ ids) db h = rw (quiet_one id db h, quiet_each ids db h) refl

  -- A tick in which no cluster may alarm reports none as missing and leaves the database as it is.
  pub sweep-quiet :
      (db : Db)
      → All (λ c. MayAlarm now c → ⊥) db.clusters
      → ((sweep rt now meanwhile db).1 ≡ []) × ((sweep rt now meanwhile db).2 ≡ db)
  unfolding sweep
  sweep-quiet db h =
      let e = quiet_each (candidate_ids rt now meanwhile db) db (no_flips db.clusters h) in
      (ap (λ p. p.0) e, ap (λ p. p.1) e)
    where
      no_flips :
          (cs : List Cluster)
          → All (λ c. MayAlarm now c → ⊥) cs
          → All (λ c. flips rt now meanwhile c ≡ false) cs
      no_flips [] k = tt
      no_flips (c ∷ cs) k = (
        elim (Bool-cases (flips rt now meanwhile c)) [
          | inl on ↦ absurd (k.0 (flips-MayAlarm c on))
          | inr off ↦ off
        ],
        no_flips cs k.1,
      )
