-- ===== src/Api/Comments.antt =====
-- The comments on an alert: backend/app/api/alerts.py.
use k8s_alert_manager.Prelude.{
  ℕ, suc, String, Bool, true, false, not, ◌&&◌, ◌||◌, Option, none, some, List, [], ◌∷◌, ◌++◌, map,
  filter, find, ◌==◌, leb, if◌then◌else◌, is_some, str_eq,
}
use k8s_alert_manager.Text.{str, text_length}
use k8s_alert_manager.Runtime.{Runtime}
use k8s_alert_manager.Models.Alert.{AlertEvent}
use k8s_alert_manager.Models.Audit.{AlertComment}
use k8s_alert_manager.Models.User.{User, is_owner}
use k8s_alert_manager.Models.Db.{Db, get_event, get_user}
use k8s_alert_manager.Exec.{Exec, http, pure, raise, modify, ◌>>=◌, ◌>>◌}
use k8s_alert_manager.Ingest.{one_or_none}
use k8s_alert_manager.Api.{log, Answer, quietly}
use k8s_alert_manager.Api.Access.{
  is_membership, get_event_or_404, authorize_event_read_access, guarded,
}
use k8s_alert_manager.Api.Payload.{CommentPayload, serialize_comment, build_event}

abbrev pub max_comment_length : ℕ
max_comment_length = 4000

-- CommentCreate._validate_body, with none for ValueError
unfoldable pub validate_comment_body : Runtime → String → Option String
unfolding text_length
validate_comment_body rt value =
    let stripped = rt.strip value in
    if str_eq stripped ""
    then none
    else if leb (text_length stripped) max_comment_length
    then some stripped
    else none

-- ORDER BY created_at
abbrev pub insert_oldest : AlertComment → List AlertComment → List AlertComment
insert_oldest c [] = c ∷ []
insert_oldest c (d ∷ ds) =
    let rest = insert_oldest c ds in if leb d.created_at c.created_at then d ∷ rest else c ∷ d ∷ ds

abbrev pub order_oldest : List AlertComment → List AlertComment → List AlertComment
order_oldest sorted [] = sorted
order_oldest sorted (c ∷ cs) = order_oldest (insert_oldest c sorted) cs

abbrev pub author : Db → Option ℕ → Option User
author db none = none
author db (some user_id) = get_user db user_id

module _ (rt : Runtime) (now : ℕ) where
  -- GET /history/{event_id}/comments
  unfoldable pub list_alert_comments : ℕ → User → Exec (Answer (List CommentPayload))
  unfolding get_event_or_404 authorize_event_read_access
  list_alert_comments event_id user = do
    event ← get_event_or_404 event_id
    restrict ← authorize_event_read_access rt event user
    (λ db.
        pure
          (quietly (
            map (λ c. serialize_comment c (author db c.user_id))
              (order_oldest [] (filter (λ c. c.alert_event_id == event_id) db.comments))))
          db)

  abbrev pub new_comment : ℕ → ℕ → ℕ → String → AlertComment
  new_comment id event_id user_id body = record {
    id = id;
    alert_event_id = event_id;
    user_id = some user_id;
    body = body;
    created_at = now;
  }

  abbrev pub add_comment : AlertComment → Db → Db
  add_comment c db = record db {
    comments = db.comments ++ c ∷ [];
    next_comment_id = suc db.next_comment_id;
  }

  unfoldable pub comment_on : ℕ → String → AlertEvent → User → Exec (Answer CommentPayload)
  unfolding log build_event str
  comment_on event_id body event user = λ db.
      let c = new_comment db.next_comment_id event_id user.id body in
      (do
        modify (add_comment c)
        log now (some user.id) event.team_id "alert.comment" "alert_comment" (str c.id)
        pure (serialize_comment c (some user), build_event rt now "comment_added" event ∷ []))
        db

  -- The body of a request was stripped and measured when it was parsed, or the answer is 422.
  abbrev pub with_body : {A : Type 0} → Option String → (String → Exec (Answer A)) → Exec (Answer A)
  with_body none k = raise (http 422)
  with_body (some body) k = k body

  -- POST /history/{event_id}/comments
  unfoldable pub create_alert_comment : ℕ → String → User → Exec (Answer CommentPayload)
  unfolding guarded validate_comment_body comment_on
  create_alert_comment event_id text user =
      with_body (validate_comment_body rt text)
        (λ body. guarded event_id user (λ event. comment_on event_id body event user))

  -- The comment joined with its event, whose team it gives.
  abbrev pub team_of_event : AlertComment → Option AlertEvent → Exec (AlertComment × Option ℕ)
  team_of_event c none = raise (http 404)
  team_of_event c (some event) = pure (c, event.team_id)

  abbrev pub with_team : Option AlertComment → Exec (AlertComment × Option ℕ)
  with_team none = raise (http 404)
  with_team (some c) = λ db. team_of_event c (get_event db c.alert_event_id) db

  abbrev pub comment_with_team : ℕ → Exec (AlertComment × Option ℕ)
  comment_with_team comment_id db = with_team (find (λ c. c.id == comment_id) db.comments) db

  abbrev pub wrote : Option ℕ → ℕ → Bool
  wrote none user_id = false
  wrote (some author_id) user_id = author_id == user_id

  abbrev pub owns_team : User → Option ℕ → Exec Bool
  owns_team user none = pure false
  owns_team user (some team_id) = λ db.
      (do
        membership ←
            one_or_none
              (filter (λ m. is_membership team_id user.id m && is_owner m.role) db.memberships)
        pure (is_some membership))
        db

  abbrev pub may_delete : User → AlertComment → Option ℕ → Exec Bool
  may_delete user c team_id =
      if user.is_admin || wrote c.user_id user.id then pure true else owns_team user team_id

  abbrev pub remove_comment : ℕ → Db → Db
  remove_comment id db = record db { comments = filter (λ c. not (c.id == id)) db.comments }

  abbrev pub delete_allowed : User → AlertComment → Option ℕ → Bool → Exec (Answer (Unit {0}))
  delete_allowed user c team_id false = raise (http 403)
  delete_allowed user c team_id true = do
    log now (some user.id) team_id "alert.comment.delete" "alert_comment" (str c.id)
    modify (remove_comment c.id)
    pure (quietly tt)

  abbrev pub delete_found : User → AlertComment × Option ℕ → Exec (Answer (Unit {0}))
  delete_found user (c, team_id) = do
    allowed ← may_delete user c team_id
    delete_allowed user c team_id allowed

  -- DELETE /comments/{comment_id}
  unfoldable pub delete_alert_comment : ℕ → User → Exec (Answer (Unit {0}))
  unfolding is_owner log str
  delete_alert_comment comment_id user = do
    row ← comment_with_team comment_id
    delete_found user row
