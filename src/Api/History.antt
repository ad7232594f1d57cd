-- ===== src/Api/History.antt =====
-- The history of alerts: `_build_history_conditions` and `get_alert_history` of
-- backend/app/api/alerts.py.
use Prim.Native.String.{◌++◌ as ◌<>◌}
use k8s_alert_manager.Prelude.{
  ℕ, zero, suc, ◌-◌, ◌*◌, String, Bool, true, false, not, ◌&&◌, ◌||◌, Option, none, some, List, [],
  ◌∷◌, ◌++◌, map, map_option, filter, any, elem, str_elem, str_eq, find, length, take, ltb, leb,
  ◌==◌, is_empty, if◌then◌else◌,
}
use k8s_alert_manager.Text.{split_at, replace_char}
use k8s_alert_manager.Runtime.{Runtime}
use k8s_alert_manager.Models.Alert.{EventStatus, AlertEvent}
use k8s_alert_manager.Models.Outbox.{status_eq}
use k8s_alert_manager.Models.Cluster.{Team}
use k8s_alert_manager.Models.Share.{AlertShare}
use k8s_alert_manager.Models.User.{User}
use k8s_alert_manager.Models.Db.{Db, get_team}
use k8s_alert_manager.Exec.{Exec, pure, ◌>>=◌}
use k8s_alert_manager.Routing.Evaluate.{as_matchable}
use k8s_alert_manager.Sharing.{compile_share_scope, scope_matches, shared_source_team_ids}
use k8s_alert_manager.Api.{Answer, quietly}
use k8s_alert_manager.Api.Access.{resolve_team_scope}
use k8s_alert_manager.Api.Payload.{EventSummary, resolve_usernames, serialize_event_summary}

-- The query parameters.
pub record Filters : Type 0 where
  pub cluster_id : List ℕ
  pub status : Option EventStatus
  pub severity : Option String
  pub namespace : Option String
  pub search : Option String
  pub from_ts : Option ℕ
  pub to_ts : Option ℕ
  pub include_test : Bool

-- One condition of a WHERE, and their conjunction.
abbrev pub Condition : Type 0
Condition = AlertEvent → Bool

abbrev pub holds : List Condition → AlertEvent → Bool
holds [] e = true
holds (c ∷ cs) e = c e && holds cs e

-- `[c] if text else []`
abbrev pub when_text : Option String → (String → List Condition) → List Condition
when_text none c = []
when_text (some s) c = if str_eq s "" then [] else c s

abbrev pub is_text : String → Option String → Bool
is_text s none = false
is_text s (some t) = str_eq s t

abbrev pub team_is : ℕ → Option ℕ → Bool
team_is id none = false
team_is id (some n) = n == id

abbrev pub team_in : List ℕ → Option ℕ → Bool
team_in ids none = false
team_in ids (some n) = elem n ids

abbrev pub team_conditions : Option Team → List ℕ → List Condition
team_conditions none shared = []
team_conditions (some team) shared =
    if is_empty shared
    then (λ e. team_is team.id e.team_id) ∷ []
    else (λ e. team_in (team.id ∷ shared) e.team_id) ∷ []

abbrev pub test_conditions : Bool → List Condition
test_conditions true = []
test_conditions false = (λ e. not e.is_test) ∷ []

abbrev pub cluster_conditions : List ℕ → List Condition
cluster_conditions [] = []
cluster_conditions (id ∷ ids) = (λ e. elem e.cluster_id (id ∷ ids)) ∷ []

abbrev pub status_conditions : Option EventStatus → List Condition
unfolding status_eq
status_conditions none = []
status_conditions (some s) = (λ e. status_eq s e.status) ∷ []

-- {s.strip().lower() for s in severity.split(",") if s.strip()}
abbrev pub wanted_severities : Runtime → String → List String
unfolding split_at
wanted_severities rt severity =
    map rt.lower (filter (λ s. not (str_eq s "")) (map rt.strip (split_at b',' severity)))

abbrev pub severity_in : List String → Option String → Bool
severity_in wanted none = str_elem "none" wanted
severity_in wanted (some s) = str_elem s (filter (λ w. not (str_eq w "none")) wanted)

abbrev pub severity_conditions : List String → List Condition
severity_conditions [] = []
severity_conditions (w ∷ ws) = (λ e. severity_in (w ∷ ws) e.severity) ∷ []

-- search.replace("\\", "\\\\").replace("%", "\\%").replace("_", "\\_")
abbrev pub escape_like : String → String
unfolding replace_char
escape_like search =
    replace_char b'_' "\\_" (replace_char b'%' "\\%" (replace_char b'\\' "\\\\" search))

abbrev pub from_conditions : Option ℕ → List Condition
from_conditions none = []
from_conditions (some from_ts) = (λ e. leb from_ts e.last_received_at) ∷ []

abbrev pub to_conditions : Option ℕ → List Condition
to_conditions none = []
to_conditions (some to_ts) = (λ e. leb e.last_received_at to_ts) ∷ []

-- ORDER BY last_received_at DESC, id DESC
abbrev pub newer : AlertEvent → AlertEvent → Bool
newer a b =
    ltb b.last_received_at a.last_received_at
    || (b.last_received_at == a.last_received_at && ltb b.id a.id)

abbrev pub insert_newest : AlertEvent → List AlertEvent → List AlertEvent
insert_newest e [] = e ∷ []
insert_newest e (x ∷ xs) =
    let rest = insert_newest e xs in if newer e x then e ∷ x ∷ xs else x ∷ rest

abbrev pub newest_first : List AlertEvent → List AlertEvent
newest_first [] = []
newest_first (e ∷ es) = insert_newest e (newest_first es)

abbrev pub drop : ℕ → List AlertEvent → List AlertEvent
drop zero es = es
drop (suc n) [] = []
drop (suc n) (e ∷ es) = drop n es

-- `ilike` is the database's, on a pattern with the escape character "\".
module _ (rt : Runtime) (ilike : (pattern text : String) → Bool) where
  unfoldable pub build_history_conditions : Option Team → Filters → List ℕ → List Condition
  unfolding status_eq split_at replace_char
  build_history_conditions team f shared_owner_team_ids =
      test_conditions f.include_test
      ++ team_conditions team shared_owner_team_ids
      ++ cluster_conditions f.cluster_id
      ++ status_conditions f.status
      ++ when_text f.severity (λ s. severity_conditions (wanted_severities rt s))
      ++ when_text f.namespace (λ s. (λ e. is_text s e.namespace) ∷ [])
      ++ when_text f.search (λ s. (λ e. ilike ("%" <> escape_like s <> "%") e.alertname) ∷ [])
      ++ from_conditions f.from_ts
      ++ to_conditions f.to_ts

  -- The events under the conditions, the most recent first.
  abbrev pub select_events : List Condition → Db → List AlertEvent
  select_events conditions db = newest_first (filter (holds conditions) db.events)

  -- The scope of the share with the team that owns the event. A pair (owner, target) is unique, so
  -- the dict of the scopes has the first one; a missing key does not occur, since the conditions let
  -- only the owners of the scopes through.
  abbrev pub scope_admits : List (ℕ × AlertShare) → AlertEvent → Option ℕ → Bool
  scope_admits pairs event none = false
  scope_admits pairs event (some owner) = elim (find (λ p. p.0 == owner) pairs) [
    | none ↦ false
    | some p ↦ scope_matches rt (compile_share_scope rt p.1) (as_matchable event)
  ]

  abbrev pub in_scope : Team → List (ℕ × AlertShare) → AlertEvent → Bool
  in_scope team pairs e = team_is team.id e.team_id || scope_admits pairs e e.team_id

  abbrev pub visible : Option Team → List (ℕ × AlertShare) → List AlertEvent → List AlertEvent
  visible none pairs items = items
  visible (some team) pairs items =
      if is_empty pairs then items else filter (in_scope team pairs) items

  abbrev pub owner_slug : Db → List (ℕ × AlertShare) → Option ℕ → Option String
  owner_slug db pairs none = none
  owner_slug db pairs (some owner) =
      if any (λ p. p.0 == owner) pairs then map_option (λ t. t.slug) (get_team db owner) else none

  abbrev pub shared_from : Db → Option Team → List (ℕ × AlertShare) → AlertEvent → Option String
  shared_from db none pairs e = none
  shared_from db (some team) pairs e =
      if team_is team.id e.team_id then none else owner_slug db pairs e.team_id

  abbrev pub source_pairs : Db → Option Team → List (ℕ × AlertShare)
  source_pairs db none = []
  source_pairs db (some team) = shared_source_team_ids db team.id

  pub record HistoryPage : Type 0 where
    pub items : List EventSummary
    pub total : ℕ
    pub page : ℕ
    pub page_size : ℕ

  -- The rows of one page, before they are written out.
  unfoldable pub history_items : Db → Option Team → Filters → ℕ → ℕ → List AlertEvent
  unfolding build_history_conditions shared_source_team_ids scope_matches compile_share_scope
  history_items db team f page page_size =
      let pairs = source_pairs db team in
      let conditions = build_history_conditions team f (map (λ p. p.0) pairs) in
      visible team pairs
        (take page_size (drop ((page - 1) * page_size) (select_events conditions db)))

  -- GET /history; `page` and `page_size` are at least 1.
  unfoldable pub get_alert_history : Option ℕ → Filters → ℕ → ℕ → User → Exec (Answer HistoryPage)
  unfolding resolve_team_scope history_items build_history_conditions shared_source_team_ids
      resolve_usernames serialize_event_summary
  get_alert_history team_id f page page_size user = do
    team ← resolve_team_scope team_id user
    (λ db.
        let pairs = source_pairs db team in
        let conditions = build_history_conditions team f (map (λ p. p.0) pairs) in
        let items = history_items db team f page page_size in
        let usernames =
          resolve_usernames db
            (map (λ e. e.acknowledged_by) items ++ map (λ e. e.assignee_user_id) items) in
        pure
          (quietly (record {
            items =
                map (λ e. serialize_event_summary e usernames (shared_from db team pairs e)) items;
            total = length (filter (holds conditions) db.events);
            page = page;
            page_size = page_size;
          }))
          db)
