-- ===== src/Ingest/Parts.antt =====
-- A relation between databases that each step of an ingest satisfies is satisfied by its lookups and
-- transitions: backend/app/services/ingest.py.
use k8s_alert_manager.Prelude.{
  ◌≡◌, any, ℕ, String, refl, Bool, true, false, Option, none, some, List, [], ◌∷◌, filter, str_eq,
}
use k8s_alert_manager.Runtime.{Runtime}
use k8s_alert_manager.Models.Alert.{resolved, EventStatus, AlertEvent}
use k8s_alert_manager.Models.Db.{Db, set_event}
use k8s_alert_manager.Exec.{Exec, multiple_results, modify, ◌>>◌}
use k8s_alert_manager.Exec.Keeps.{IsPreorder, Steps, Steps-pure, Steps-raise, Steps-bind}
use k8s_alert_manager.Route.Frame.{Frame, SameIdentity, route_event-Frame}
use k8s_alert_manager.Route.Notification.{truthy}
use k8s_alert_manager.Ingest.{
  add_event, has_identity, one_or_none, get_existing, team_with_slug, resolve_team_id,
  TransitionKind, on_event_transition, recovered, resolve_each, is_heartbeat_lost,
  resolve_heartbeat_lost_event,
}
use k8s_alert_manager.Ingest.Alerts.{recover_from}

-- What the parts of an ingest owe. `others` is about what other sessions commit in between.
pub record Parts (R : Db → Db → Type 0) (meanwhile : Db → Db) : Type 1 where
  pub order : IsPreorder R
  pub frame : {A : Type 0} (m : Exec A) → Steps Frame m → Steps R m
  pub sets :
      (id : ℕ) (g : AlertEvent → AlertEvent)
      → ((e : AlertEvent) → SameIdentity e (g e))
      → Steps R (modify (set_event id g))
  pub inserts :
      (e : AlertEvent) (db : Db)
      → any (has_identity e.cluster_id e.fingerprint e.starts_at) db.events ≡ false
      → R db (add_event e db)
  pub others : (db : Db) → R db (meanwhile db)

module _ {R : Db → Db → Type 0} {meanwhile : Db → Db} (parts : Parts R meanwhile) where
  -- Reading the tables.
  one_or_none-Steps : {A : Type 0} (xs : List A) → Steps R (one_or_none xs)
  one_or_none-Steps [] = Steps-pure parts.order none
  one_or_none-Steps (x ∷ []) = Steps-pure parts.order (some x)
  one_or_none-Steps (x ∷ y ∷ xs) = Steps-raise parts.order multiple_results

  pub get_existing-Steps : (c : ℕ) (f : String) (t : ℕ) → Steps R (get_existing c f t)
  unfolding get_existing
  get_existing-Steps c f t = record {
    at = λ db. (one_or_none-Steps (filter (has_identity c f t) db.events)).at db;
  }

  pub resolve_team_id-Steps : (slug : Option String) → Steps R (resolve_team_id slug)
  unfolding resolve_team_id
  resolve_team_id-Steps slug = by_slug (truthy slug)
    where
      by_slug : (o : Option String) → Steps R (team_with_slug o)
      by_slug none = Steps-pure parts.order none
      by_slug (some s) = record {
        at = λ db.
            (Steps-bind parts.order _ _ (one_or_none-Steps (filter (λ t. str_eq t.slug s) db.teams))
                λ team. Steps-pure parts.order _).at
              db;
      }

  module _ (rt : Runtime) (now : ℕ) where
    pub transition-Steps :
        (e : AlertEvent) (kind : EventStatus) → Steps R (on_event_transition rt now e kind)
    unfolding on_event_transition
    transition-Steps e kind =
        Steps-bind parts.order _ _ (parts.frame _ (route_event-Frame rt now e kind))
          λ outcome. Steps-pure parts.order tt

    -- An update of one event that leaves its identity, the transition behind it, and a result.
    pub update-Steps :
        {A : Type 0} (e : AlertEvent) (g : AlertEvent → AlertEvent) (kind : EventStatus)
        (m : Exec A)
        → ((x : AlertEvent) → SameIdentity x (g x))
        → Steps R m
        → Steps R (modify (set_event e.id g) >> (on_event_transition rt now (g e) kind >> m))
    update-Steps e g kind m h more =
        Steps-bind parts.order (modify (set_event e.id g)) _ (parts.sets e.id g h) λ u.
          Steps-bind parts.order (on_event_transition rt now (g e) kind) _
            (transition-Steps (g e) kind) λ v. more

    resolve_each-Steps : (es : List AlertEvent) → Steps R (resolve_each rt now es)
    unfolding resolve_each
    resolve_each-Steps [] = Steps-pure parts.order []
    resolve_each-Steps (e ∷ es) =
        update-Steps e (recovered rt now) resolved _
          (λ x. record { id = refl; cluster_id = refl; fingerprint = refl; starts_at = refl })
          (Steps-bind parts.order (resolve_each rt now es) _ (resolve_each-Steps es) λ rest.
            Steps-pure parts.order (record { kind = TransitionKind.resolved; event = e.id } ∷ rest))

    pub recover_from-Steps :
        (cluster_id : ℕ) (was_missing : Bool)
        → Steps R (recover_from rt now meanwhile cluster_id was_missing)
    unfolding resolve_heartbeat_lost_event
    recover_from-Steps cluster_id true = record {
      at =
          λ db. (resolve_each-Steps (filter (is_heartbeat_lost rt now cluster_id) db.events)).at db;
    }
    recover_from-Steps cluster_id false = Steps-pure parts.order []
