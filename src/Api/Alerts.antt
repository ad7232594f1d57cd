-- ===== src/Api/Alerts.antt =====
-- Acknowledging, assigning and resolving an alert: backend/app/api/alerts.py.
use k8s_alert_manager.Prelude.{ℕ, Option, none, some, List, [], ◌∷◌, if◌then◌else◌, is_some}
use k8s_alert_manager.Text.{str}
use k8s_alert_manager.Runtime.{Runtime}
use k8s_alert_manager.Models.Alert.{resolved, is_firing, AlertEvent}
use k8s_alert_manager.Models.User.{User}
use k8s_alert_manager.Models.Db.{get_user, set_event}
use k8s_alert_manager.Exec.{Exec, http, pure, raise, modify, ◌>>=◌, ◌>>◌}
use k8s_alert_manager.Route.Timers.{cancel_pending}
use k8s_alert_manager.Route.Event.{route_event}
use k8s_alert_manager.Feed.{HubEvent}
use k8s_alert_manager.Api.{log, Answer, quietly}
use k8s_alert_manager.Api.Access.{
  get_event_or_404, authorize_event_read_access, membership_of, guarded,
}
use k8s_alert_manager.Api.Payload.{EventDetail, serialize_one_detail, build_event}

module _ (rt : Runtime) (now : ℕ) where
  -- GET /history/{event_id}
  unfoldable pub get_alert_history_detail : ℕ → User → Exec (Answer EventDetail)
  unfolding get_event_or_404 authorize_event_read_access serialize_one_detail
  get_alert_history_detail event_id user = do
    event ← get_event_or_404 event_id
    restrict ← authorize_event_read_access rt event user
    detail ← serialize_one_detail rt event (some user)
    pure (quietly detail)

  -- The event behind a change, and the feed's event if there was one.
  abbrev pub answer_detail : List HubEvent → AlertEvent → Exec (Answer EventDetail)
  answer_detail events event = do detail ← serialize_one_detail rt event none; pure (detail, events)

  abbrev pub acknowledged : ℕ → AlertEvent → AlertEvent
  acknowledged user_id e = record e { acknowledged_at = some now; acknowledged_by = some user_id }

  abbrev pub unacknowledged : AlertEvent → AlertEvent
  unacknowledged e = record e { acknowledged_at = none; acknowledged_by = none }

  unfoldable pub ack_event : AlertEvent → User → Exec (Answer EventDetail)
  unfolding cancel_pending log serialize_one_detail build_event str
  ack_event event user = if is_some event.acknowledged_at then answer_detail [] event else (do
    modify (set_event event.id (acknowledged user.id))
    cancelled ← cancel_pending now event.id
    log now (some user.id) event.team_id "alert.ack" "alert_event" (str event.id)
    answer_detail (build_event rt now "alert_acked" (acknowledged user.id event) ∷ [])
        (acknowledged user.id event))

  -- POST /history/{event_id}/ack
  unfoldable pub ack_alert : ℕ → User → Exec (Answer EventDetail)
  unfolding guarded ack_event
  ack_alert event_id user = guarded event_id user (λ event. ack_event event user)

  unfoldable pub unack_event : AlertEvent → User → Exec (Answer EventDetail)
  unfolding log serialize_one_detail build_event str
  unack_event event user =
      if is_some event.acknowledged_at
      then (do
        modify (set_event event.id unacknowledged)
        log now (some user.id) event.team_id "alert.unack" "alert_event" (str event.id)
        answer_detail (build_event rt now "alert_unacked" (unacknowledged event) ∷ [])
            (unacknowledged event))
      else answer_detail [] event

  -- DELETE /history/{event_id}/ack
  unfoldable pub unack_alert : ℕ → User → Exec (Answer EventDetail)
  unfolding guarded unack_event
  unack_alert event_id user = guarded event_id user (λ event. unack_event event user)

  abbrev pub member_or_422 : Option ℕ → ℕ → Exec (Unit {0})
  member_or_422 none user_id = raise (http 422)
  member_or_422 (some team_id) user_id = do
    membership ← membership_of team_id user_id
    if is_some membership then pure tt else raise (http 422)

  abbrev pub assignable : Option ℕ → Option User → Exec (Unit {0})
  assignable team_id none = raise (http 422)
  assignable team_id (some target) =
      if target.is_admin then pure tt else member_or_422 team_id target.id

  -- An assignee is an admin or a member of the event's team.
  unfoldable pub validate_assignee : Option ℕ → Option ℕ → Exec (Unit {0})
  validate_assignee team_id none = pure tt
  validate_assignee team_id (some user_id) = λ db. assignable team_id (get_user db user_id) db

  abbrev pub assigned : Option ℕ → AlertEvent → AlertEvent
  assigned user_id e = record e { assignee_user_id = user_id }

  unfoldable pub assign_event : Option ℕ → AlertEvent → User → Exec (Answer EventDetail)
  unfolding validate_assignee log serialize_one_detail str
  assign_event user_id event user = do
    validate_assignee event.team_id user_id
    modify (set_event event.id (assigned user_id))
    log now (some user.id) event.team_id "alert.assign" "alert_event" (str event.id)
    answer_detail [] (assigned user_id event)

  -- PUT /history/{event_id}/assignee
  unfoldable pub set_alert_assignee : ℕ → Option ℕ → User → Exec (Answer EventDetail)
  unfolding guarded assign_event
  set_alert_assignee event_id user_id user =
      guarded event_id user (λ event. assign_event user_id event user)

  abbrev pub test_resolved : AlertEvent → AlertEvent
  test_resolved e = record e { status = resolved; ends_at = some now }

  unfoldable pub resolve_test_event : AlertEvent → User → Exec (Answer EventDetail)
  unfolding is_firing route_event log serialize_one_detail build_event str
  resolve_test_event event user =
      if is_firing event.status
      then (do
        modify (set_event event.id test_resolved)
        outcome ← route_event rt now (test_resolved event) resolved
        log now (some user.id) event.team_id "alert.test_resolve" "alert_event" (str event.id)
        answer_detail (build_event rt now "alert_resolved" (test_resolved event) ∷ [])
            (test_resolved event))
      else answer_detail [] event

  -- POST /history/{event_id}/resolve-test
  unfoldable pub resolve_test_alert : ℕ → User → Exec (Answer EventDetail)
  unfolding guarded resolve_test_event
  resolve_test_alert event_id user =
      guarded event_id user
        (λ event. if event.is_test then resolve_test_event event user else raise (http 422))
