-- ===== src/Api/Exported.antt =====
-- What `export_alert_history` of backend/app/api/alerts.py answers, in either format.
use k8s_alert_manager.Prelude.{
  ℕ, suc, String, ◌≡◌, refl, sym, ap, ◌∙◌, Bool, true, false, Option, none, some, List, [], ◌∷◌,
  map, filter, length, ltb, Bool-cases, inl, inr, arith,
}
use k8s_alert_manager.Runtime.{Runtime}
use k8s_alert_manager.Models.Alert.{AlertEvent}
use k8s_alert_manager.Models.Cluster.{Team}
use k8s_alert_manager.Models.User.{User}
use k8s_alert_manager.Models.Db.{Db, get_team}
use k8s_alert_manager.Exec.{ok, http}
use k8s_alert_manager.Exec.Keeps.{Steps, Steps-pure, Steps-raise, Steps-bind, Steps-if}
use k8s_alert_manager.Exec.Returns.{ok-injective, returned, ok-of_returned}
use k8s_alert_manager.Exec.Reads.{Same, Same-preorder, Reads-bind}
use k8s_alert_manager.Api.{Answer, log, quietly}
use k8s_alert_manager.Api.Access.{membership_of, scope_of_team, resolve_team_scope}
use k8s_alert_manager.Api.Guarded.{membership_of-Same, need_membership-Same}
use k8s_alert_manager.Api.History.{
  Filters, holds, insert_newest, newest_first, build_history_conditions, select_events,
}
use k8s_alert_manager.Api.Export.{
  ExportRow, Format, json, ndjson, cap_of, export_row, history_export_ndjson_cap, exported_rows,
  stream_history_ndjson, team_id_of, export_scoped, export_alert_history,
}
use k8s_alert_manager.Api.Order.{DistinctIds}
use k8s_alert_manager.Api.Pages.{take_whole, stream_pages-selects}

scope_of_team-Same : (user : User) (o : Option Team) → Steps Same (scope_of_team user o)
scope_of_team-Same user none = Steps-raise Same-preorder (http 404)
scope_of_team-Same user (some team) =
    Steps-if Same-preorder user.is_admin _ _ (λ on. Steps-pure Same-preorder (some team))
      (λ off.
        Steps-bind Same-preorder (membership_of team.id user.id) _
          (membership_of-Same team.id user.id) (need_membership-Same (some team)))

pub resolve_team_scope-Same :
    (team_id : Option ℕ) (user : User) → Steps Same (resolve_team_scope team_id user)
unfolding resolve_team_scope
resolve_team_scope-Same none user =
    Steps-if Same-preorder user.is_admin _ _ (λ on. Steps-pure Same-preorder none)
      (λ off. Steps-raise Same-preorder (http 422))
resolve_team_scope-Same (some team_id) user = record {
  at = λ db. (scope_of_team-Same user (get_team db team_id)).at db;
}

length-insert :
    (e : AlertEvent) (xs : List AlertEvent) → length (insert_newest e xs) ≡ suc (length xs)
length-insert e [] = refl
length-insert e (x ∷ xs) = ground (arith, length-insert e xs)

length-newest_first : (es : List AlertEvent) → length (newest_first es) ≡ length es
length-newest_first [] = refl
length-newest_first (e ∷ es) =
    omega (arith, length-insert e (newest_first es), length-newest_first es)

module _ (rt : Runtime) (now : ℕ) (ilike : (pattern text : String) → Bool) where
  -- Under its cap, the stream sends every selected row.
  stream_complete :
      (conditions : List (AlertEvent → Bool)) (db : Db)
      → DistinctIds db.events
      → ltb history_export_ndjson_cap (length (filter (holds conditions) db.events)) ≡ false
      → stream_history_ndjson conditions db ≡ select_events rt ilike conditions db
  unfolding stream_history_ndjson
  stream_complete conditions db distinct under =
      stream_pages-selects 1000 100000 db.events conditions distinct (omega arith)
      ∙ take_whole 100000 (select_events rt ilike conditions db)
          (ground (arith, under, length-newest_first (filter (holds conditions) db.events)))

  abbrev complete : Option Team → Filters → Db → List AlertEvent
  complete team f db = select_events rt ilike (build_history_conditions rt ilike team f []) db

  exported_complete :
      (format : Format) (conditions : List (AlertEvent → Bool)) (db : Db)
      → DistinctIds db.events
      → ltb (cap_of format) (length (filter (holds conditions) db.events)) ≡ false
      → exported_rows rt now ilike format conditions db ≡ select_events rt ilike conditions db
  exported_complete json conditions db distinct under = refl
  exported_complete ndjson conditions db distinct under =
      stream_complete conditions db distinct under

  scoped_complete :
      (team_id : Option ℕ) (f : Filters) (format : Format) (user : User) (team : Option Team)
      (db : Db) (answer : Answer (List ExportRow))
      → DistinctIds db.events
      → (export_scoped rt now ilike team_id f format user team db).0 ≡ ok answer
      → answer ≡ quietly (map (export_row rt) (complete team f db))
  unfolding export_scoped log
  scoped_complete team_id f format user team db answer distinct h =
      let conditions = build_history_conditions rt ilike team f [] in
      elim (Bool-cases (ltb (cap_of format) (length (filter (holds conditions) db.events)))) [
        | inl over ↦ absurd (ground (arith, over, h))
        | inr under ↦
            let logged =
              (log now (some user.id) (team_id_of rt now ilike team) "history.export" "alert_event"
                "history" db).1 in
            sym (ok-injective _ answer (rw under at h))
            ∙ ap (λ rows. quietly (map (export_row rt) rows))
                (exported_complete format conditions logged distinct under)
      ]

  -- An answered export, in either format, holds all events under the request's conditions, the most
  -- recent first, each once; if the events have distinct ids.
  pub export_alert_history_complete :
      (team_id : Option ℕ) (f : Filters) (format : Format) (user : User) (db : Db)
      → DistinctIds db.events
      → returned (export_alert_history rt now ilike team_id f format user db).0 ≡ true
      → (team : Option Team) × ((resolve_team_scope team_id user db).0 ≡ ok team)
        × ((export_alert_history rt now ilike team_id f format user db).0
            ≡ ok (
                quietly (
                  map
                    (export_row rt)
                    (select_events rt ilike (build_history_conditions rt ilike team f []) db))))
  unfolding export_alert_history
  export_alert_history_complete team_id f format user db distinct h =
      let (answer, answered) =
        ok-of_returned (export_alert_history rt now ilike team_id f format user db).0 h in
      let (team, scope, rest) =
        Reads-bind (resolve_team_scope team_id user)
          (export_scoped rt now ilike team_id f format user) (resolve_team_scope-Same team_id user)
          db answer answered in
      (
        team,
        scope,
        answered
            ∙ ap ok (
                scoped_complete team_id f format user team db answer distinct
                  (ap (λ r. r.0) (sym rest) ∙ answered)),
      )
