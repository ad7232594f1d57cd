-- ===== src/Api/Acked.antt =====
-- Acknowledging an alert in backend/app/api/alerts.py: what holds afterwards, and taking it back.
use k8s_alert_manager.Prelude.{
  ℕ, ◌≡◌, refl, sym, ap, ◌∙◌, subst, inl, inr, Bool, true, none, some, List, [], ◌∷◌, find-passes,
  find-update_where, All-map, update_where, ◌==◌, ==_iff, All, Bool-cases, is_some, arith,
}
use k8s_alert_manager.Runtime.{Runtime}
use k8s_alert_manager.Models.Alert.{AlertEvent}
use k8s_alert_manager.Models.User.{User}
use k8s_alert_manager.Models.Db.{Db, get_event, set_event}
use k8s_alert_manager.Exec.Returns.{returned, ok-of_returned}
use k8s_alert_manager.Route.Timers.{cancel_pending}
use k8s_alert_manager.Route.Quiet.{IsQuiet, cancel_pending-IsQuiet}
use k8s_alert_manager.Api.{log}
use k8s_alert_manager.Api.Alerts.{acknowledged, unacknowledged, ack_event, ack_alert, unack_event}
use k8s_alert_manager.Api.Guarded.{guarded-MayChange}

-- The event with an id is acknowledged, and none of its timers is pending if it was not before.
pub record IsAcknowledged (event : AlertEvent) (db : Db) : Type 0 where
  pub now_found : AlertEvent
  pub found : get_event db event.id ≡ some now_found
  pub acknowledged : is_some now_found.acknowledged_at ≡ true
  pub quiet : event.acknowledged_at ≡ none → IsQuiet event.id db

module _ (rt : Runtime) (now : ℕ) (user : User) (db : Db) where
  ack_event-IsAcknowledged :
      (event : AlertEvent)
      → get_event db event.id ≡ some event
      → IsAcknowledged event (ack_event rt now event user db).1
  unfolding ack_event
  ack_event-IsAcknowledged event here = elim (Bool-cases (is_some event.acknowledged_at)) [
    | inl old ↦ rw old (record {
      now_found = event;
      found = here;
      acknowledged = old;
      quiet = λ none_yet. absurd (ground (arith, old, none_yet));
    })
    | inr new ↦ rw new (
        unfold log cancel_pending in
        (record {
          now_found = acknowledged rt now user.id event;
          found =
              find-update_where (λ e. e.id == event.id) (acknowledged rt now user.id) db.events
                event (λ e. refl) here;
          acknowledged = refl;
          quiet = λ none_yet.
              cancel_pending-IsQuiet now event.id
                (set_event event.id (acknowledged rt now user.id) db);
        }))
  ]

  -- When an acknowledgement is answered, the event was found and is acknowledged afterwards; if it was
  -- not before, none of its timers is pending any more.
  pub ack_alert-IsAcknowledged :
      (id : ℕ)
      → returned (ack_alert rt now id user db).0 ≡ true
      → (event : AlertEvent) × (get_event db id ≡ some event)
        × IsAcknowledged event (ack_alert rt now id user db).1
  unfolding ack_alert
  ack_alert-IsAcknowledged id h =
      let (a, answered) = ok-of_returned (ack_alert rt now id user db).0 h in
      let (event, found, may, rest) =
        guarded-MayChange id user (λ event. ack_event rt now event user) db a answered in
      let same = (==_iff event.id id).0 (find-passes (λ e. e.id == id) db.events event found) in
      (
        event,
        found,
        subst (λ r. IsAcknowledged event r.1) (sym rest)
            (ack_event-IsAcknowledged event
              (subst (λ n. get_event db n ≡ some event) (sym same) found)),
      )

  update_back :
      (p : AlertEvent → Bool) (f g : AlertEvent → AlertEvent) (es : List AlertEvent)
      → ((e : AlertEvent) → p (f e) ≡ p e)
      → All (λ e. p e ≡ true → g (f e) ≡ e) es
      → update_where p g (update_where p f es) ≡ es
  update_back p f g [] keeps h = refl
  update_back p f g (e ∷ es) keeps h = elim (Bool-cases (p e)) [
    | inl on ↦ rw (on, keeps e, on, h.0 on) (ap (λ more. e ∷ more) (update_back p f g es keeps h.1))
    | inr off ↦ rw (off, off) (ap (λ more. e ∷ more) (update_back p f g es keeps h.1))
  ]

  -- Taking an acknowledgement back restores the table of events, if the rows with the event's id were
  -- not acknowledged before, whoever takes it back and whenever.
  pub ack-unack_roundtrip :
      (later : ℕ) (other : User) (event : AlertEvent)
      → event.acknowledged_at ≡ none
      → All
          (λ e. (e.id == event.id) ≡ true → (e.acknowledged_at ≡ none) × (e.acknowledged_by ≡ none))
          db.events
      → let marked = acknowledged rt now user.id event in
        (unack_event rt later marked other (ack_event rt now event user db).1).1.events ≡ db.events
  unfolding ack_event unack_event log cancel_pending
  ack-unack_roundtrip later other event fresh clear = rw fresh (
      update_back (λ e. e.id == event.id) (acknowledged rt now user.id) (unacknowledged rt later)
        db.events (λ e. refl) (All-map _ _ db.events (λ e k on. restored e (k on)) clear))
    where
      restored :
          (e : AlertEvent)
          → (e.acknowledged_at ≡ none) × (e.acknowledged_by ≡ none)
          → unacknowledged rt later (acknowledged rt now user.id e) ≡ e
      restored e (at_none, by_none) =
          ap (λ o. record e { acknowledged_at = o; acknowledged_by = none }) (sym at_none)
          ∙ ap (λ o. record e { acknowledged_by = o }) (sym by_none)
