-- ===== src/Api/Export.antt =====
-- The export of the history of alerts: `_stream_history_ndjson` and `export_alert_history` of
-- backend/app/api/alerts.py.
use k8s_alert_manager.Prelude.{
  String, ℕ, zero, suc, ◌+◌, ◌-◌, min, Bool, ◌&&◌, ◌||◌, Option, none, some, List, [], ◌∷◌, ◌++◌,
  map, map_option, filter, length, take, ltb, ◌==◌, if◌then◌else◌,
}
use k8s_alert_manager.Runtime.{Runtime}
use k8s_alert_manager.Models.Alert.{EventStatus, Labels, AlertEvent}
use k8s_alert_manager.Models.Cluster.{Team}
use k8s_alert_manager.Models.User.{User}
use k8s_alert_manager.Models.Db.{Db}
use k8s_alert_manager.Exec.{Exec, http, pure, raise, ◌>>=◌, ◌>>◌}
use k8s_alert_manager.Api.{log, Answer, quietly}
use k8s_alert_manager.Api.Access.{resolve_team_scope}
use k8s_alert_manager.Api.History.{
  Filters, Condition, holds, newest_first, build_history_conditions, select_events,
}

abbrev pub history_export_json_cap : ℕ
history_export_json_cap = 10000

abbrev pub history_export_ndjson_cap : ℕ
history_export_ndjson_cap = 100000

abbrev pub history_export_page_size : ℕ
history_export_page_size = 1000

pub record ExportRow : Type 0 where
  pub id : ℕ
  pub cluster_id : ℕ
  pub cluster_name : String
  pub fingerprint : String
  pub status : EventStatus
  pub alertname : String
  pub severity : Option String
  pub namespace : Option String
  pub team_id : Option ℕ
  pub labels : Labels
  pub annotations : Labels
  pub starts_at : String
  pub ends_at : Option String
  pub first_received_at : String
  pub last_received_at : String
  pub receive_count : ℕ
  pub is_test : Bool
  pub generator_url : Option String
  pub acknowledged_at : Option String
  pub acknowledged_by : Option ℕ
  pub assignee_user_id : Option ℕ

unfoldable pub export_row : Runtime → AlertEvent → ExportRow
export_row rt event = record {
  id = event.id;
  cluster_id = event.cluster_id;
  cluster_name = event.cluster_name;
  fingerprint = event.fingerprint;
  status = event.status;
  alertname = event.alertname;
  severity = event.severity;
  namespace = event.namespace;
  team_id = event.team_id;
  labels = event.labels;
  annotations = event.annotations;
  starts_at = rt.isoformat event.starts_at;
  ends_at = map_option rt.isoformat event.ends_at;
  first_received_at = rt.isoformat event.first_received_at;
  last_received_at = rt.isoformat event.last_received_at;
  receive_count = event.receive_count;
  is_test = event.is_test;
  generator_url = event.generator_url;
  acknowledged_at = map_option rt.isoformat event.acknowledged_at;
  acknowledged_by = event.acknowledged_by;
  assignee_user_id = event.assignee_user_id;
}

-- (last_received_at, id) of the last row that was sent
abbrev pub Cursor : Type 0
Cursor = ℕ × ℕ

abbrev pub cursor_of : AlertEvent → Cursor
cursor_of e = (e.last_received_at, e.id)

-- The rows behind the cursor in the order of the export.
abbrev pub behind : Cursor → Condition
behind (last_value, last_id) e =
    ltb e.last_received_at last_value || (e.last_received_at == last_value && ltb e.id last_id)

abbrev pub page_conditions : List Condition → Option Cursor → List Condition
page_conditions conditions none = conditions
page_conditions conditions (some cursor) = conditions ++ behind cursor ∷ []

-- rows[-1]
abbrev pub last_of : AlertEvent → List AlertEvent → AlertEvent
last_of e [] = e
last_of e (x ∷ xs) = last_of x xs

module _ (page_size cap : ℕ) (events : List AlertEvent) (conditions : List Condition) where
  abbrev pub page_limit : ℕ → ℕ
  page_limit emitted = min page_size (cap - emitted)

  abbrev pub page_rows : Option Cursor → ℕ → List AlertEvent
  page_rows cursor emitted =
      take (page_limit emitted)
        (newest_first (filter (holds (page_conditions conditions cursor)) events))

  -- The rows of a page, and what follows them if the page was full.
  abbrev pub send_page : (Cursor → ℕ → List AlertEvent) → ℕ → List AlertEvent → List AlertEvent
  send_page next emitted [] = []
  send_page next emitted (row ∷ rows) =
      let more = next (cursor_of (last_of row rows)) (emitted + length (row ∷ rows)) in
      (row ∷ rows) ++ (if ltb (length (row ∷ rows)) (page_limit emitted) then [] else more)

  -- Each round sends at least one row, so `cap` rounds are enough.
  unfoldable pub stream_pages : ℕ → Option Cursor → ℕ → List AlertEvent
  stream_pages zero cursor emitted = []
  stream_pages (suc fuel) cursor emitted =
      let sent =
        send_page (λ next. stream_pages fuel (some next)) emitted (page_rows cursor emitted) in
      if ltb emitted cap then sent else []

-- The rows of the NDJSON stream, in a session that sees the same events throughout.
unfoldable pub stream_history_ndjson : List Condition → Db → List AlertEvent
unfolding stream_pages
stream_history_ndjson conditions db =
    stream_pages history_export_page_size history_export_ndjson_cap db.events conditions
      history_export_ndjson_cap none 0

pub data Format : Type 0 where
  json ndjson : Format

abbrev pub cap_of : Format → ℕ
cap_of json = history_export_json_cap
cap_of ndjson = history_export_ndjson_cap

module _ (rt : Runtime) (now : ℕ) (ilike : (pattern text : String) → Bool) where
  abbrev pub exported_rows : Format → List Condition → Db → List AlertEvent
  exported_rows json conditions db = select_events rt ilike conditions db
  exported_rows ndjson conditions db = stream_history_ndjson conditions db

  abbrev pub team_id_of : Option Team → Option ℕ
  team_id_of team = map_option (λ t. t.id) team

  -- Refused above the cap of the format; the rows are read behind the commit of the audit row.
  unfoldable pub export_scoped :
      Option ℕ → Filters → Format → User → Option Team → Exec (Answer (List ExportRow))
  unfolding build_history_conditions stream_history_ndjson log export_row
  export_scoped team_id f format user team db =
      let conditions = build_history_conditions rt ilike team f [] in
      (if ltb (cap_of format) (length (filter (holds conditions) db.events))
          then raise (http 400)
          else (do
            log now (some user.id) (team_id_of team) "history.export" "alert_event" "history"
            (λ db'.
                pure (quietly (map (export_row rt) (exported_rows format conditions db'))) db')))
        db

  -- GET /history/export: the rows of the body; the filters that it names are the request's.
  unfoldable pub export_alert_history :
      Option ℕ → Filters → Format → User → Exec (Answer (List ExportRow))
  unfolding resolve_team_scope export_scoped
  export_alert_history team_id f format user = do
    team ← resolve_team_scope team_id user
    export_scoped team_id f format user team
