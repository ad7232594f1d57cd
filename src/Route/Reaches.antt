-- ===== src/Route/Reaches.antt =====
-- Every channel that routing has collected gets its row: `route_event` of backend/app/services/routing.py.
use k8s_alert_manager.Prelude.{
  ℕ, ◌≡◌, refl, sym, ap, ◌∙◌, Bool, true, false, Option, none, some, List, [], ◌∷◌, All, All-map,
  subst, if◌then◌else◌, arith,
}
use k8s_alert_manager.Runtime.{Runtime}
use k8s_alert_manager.Models.Alert.{EventStatus, is_resolved, AlertEvent}
use k8s_alert_manager.Models.Outbox.{Payload}
use k8s_alert_manager.Models.Routing.{RoutingRule}
use k8s_alert_manager.Models.Share.{AlertShare}
use k8s_alert_manager.Models.Cluster.{Team}
use k8s_alert_manager.Models.Db.{Db, get_team}
use k8s_alert_manager.Exec.{ok, pure, ◌>>=◌}
use k8s_alert_manager.Exec.Returns.{bind_ok}
use k8s_alert_manager.Route.Owner.{
  Matches, stage_outbox, suppress_rules, notify_rules, matched_notify_channels,
  matched_channels_from,
}
use k8s_alert_manager.Route.Timers.{cancel_pending}
use k8s_alert_manager.Route.Event.{
  RoutingOutcome, route_shares, owner_channels, suppressing_rule, matching_shares, mark_or_escalate,
  stage_both, stage_all, route_with, route_team, route_or_skip, route_event, payload_for,
}
use k8s_alert_manager.Route.Recipients.{route_shares-Grows}
use k8s_alert_manager.Route.Repeats.{HasRow, HasRow-grown, stage_outbox-HasRow}

module _ (rt : Runtime) (now : ℕ) (e : AlertEvent) (trigger : EventStatus) where
  abbrev Reached : Matches → Db → Type 0
  Reached matched db = All (HasRow e.id trigger db) matched

  stage_both-Reached :
      (team_id : ℕ) (matched : Matches) (shares : List AlertShare) (payload : Payload) (db : Db)
      (n : ℕ × ℕ)
      → (stage_both rt now e trigger team_id matched shares payload db).0 ≡ ok n
      → Reached matched (stage_both rt now e trigger team_id matched shares payload db).1
  unfolding stage_both
  stage_both-Reached team_id matched shares payload db n h =
      let (created, done, first) =
        bind_ok (stage_outbox now e.id trigger team_id payload matched) _ db n h in
      let db1 = (stage_outbox now e.id trigger team_id payload matched db).1 in
      let (shared, done', second) =
        bind_ok (route_shares rt now e trigger payload shares) (λ k. pure (created, k)) db1 n
          (ap (λ p. p.0) (sym first) ∙ h) in
      subst (λ p. Reached matched p.1) (sym (first ∙ second))
        (All-map _ _ matched
          (λ m k.
            HasRow-grown e.id trigger db1 _ m
              ((route_shares-Grows rt now e trigger payload shares).at db1) k)
          (stage_outbox-HasRow now e.id trigger team_id payload matched db created done))

  stage_all-Reached :
      (team : Option Team) (team_id : ℕ) (matched : Matches) (shares : List AlertShare) (db : Db)
      (n : ℕ × ℕ)
      → (stage_all rt now e trigger team team_id matched shares db).0 ≡ ok n
      → Reached matched (stage_all rt now e trigger team team_id matched shares db).1
  unfolding stage_all
  stage_all-Reached none team_id matched shares db n h = absurd (ground arith)
  stage_all-Reached (some team) team_id matched shares db n h =
      stage_both-Reached team_id matched shares (payload_for rt now e trigger db team) db n h

  route_with-Reached :
      (rule : Option RoutingRule) (rules : List RoutingRule) (matched : Matches)
      (shares : List AlertShare) (team : Option Team) (team_id : ℕ) (db : Db) (out : RoutingOutcome)
      → (route_with rt now e trigger rule rules matched shares team team_id db).0 ≡ ok out
      → Reached matched (route_with rt now e trigger rule rules matched shares team team_id db).1
  unfolding route_with
  route_with-Reached rule rules [] shares team team_id db out h = tt
  route_with-Reached rule rules (m ∷ ms) shares team team_id db out h =
      let (u, marked, first) = bind_ok (mark_or_escalate rt now e trigger rule rules) _ db out h in
      let db1 = (mark_or_escalate rt now e trigger rule rules db).1 in
      let (staged, done, second) =
        bind_ok (stage_all rt now e trigger team team_id (m ∷ ms) shares) _ db1 out
          (ap (λ p. p.0) (sym first) ∙ h) in
      subst (λ p. Reached (m ∷ ms) p.1) (sym (first ∙ second))
        (stage_all-Reached team team_id (m ∷ ms) shares db1 staged done)

  route_team-Reached :
      (team_id : ℕ) (db : Db) (out : RoutingOutcome)
      → (route_team rt now e trigger team_id db).0 ≡ ok out
      → Reached (owner_channels rt e trigger db team_id) (route_team rt now e trigger team_id db).1
  unfolding route_team
  route_team-Reached team_id db out h =
      route_with-Reached (suppressing_rule rt e trigger db team_id) (notify_rules db team_id false)
        (owner_channels rt e trigger db team_id) (matching_shares rt e db team_id)
        (get_team db team_id) team_id db out h

  own-Reached :
      (o : Option ℕ) (team_id : ℕ) (db : Db) (out : RoutingOutcome)
      → o ≡ some team_id
      → (route_or_skip rt now e trigger o db).0 ≡ ok out
      → Reached (owner_channels rt e trigger db team_id) (route_or_skip rt now e trigger o db).1
  own-Reached o team_id db out own =
      subst
        (λ o'.
          (route_or_skip rt now e trigger o' db).0 ≡ ok out
          → Reached (owner_channels rt e trigger db team_id)
              (route_or_skip rt now e trigger o' db).1)
        (sym own) (route_team-Reached team_id db out)

  -- The cancellation changes timers only.
  owner_channels-cancel :
      (team_id : ℕ) (db : Db)
      → owner_channels rt e trigger (cancel_pending now e.id db).1 team_id
        ≡ owner_channels rt e trigger db team_id
  unfolding owner_channels suppressing_rule suppress_rules notify_rules matched_notify_channels
      matched_channels_from cancel_pending
  owner_channels-cancel team_id db = refl

  -- When routing an event of a team returns, every channel that was collected has an outbox row for this
  -- event and trigger.
  pub route_event-Reached :
      (team_id : ℕ) (db : Db) (out : RoutingOutcome)
      → e.team_id ≡ some team_id
      → (route_event rt now e trigger db).0 ≡ ok out
      → All
          (HasRow e.id trigger (route_event rt now e trigger db).1)
          (owner_channels rt e trigger db team_id)
  unfolding route_event
  route_event-Reached team_id db out own h = by_cancel (is_resolved trigger) h
    where
      by_cancel :
          (b : Bool)
          → ((do
            cancelled ← if b then cancel_pending now e.id else pure 0
            route_or_skip rt now e trigger e.team_id)
              db).0
            ≡ ok out
          → Reached
              (owner_channels rt e trigger db team_id)
              ((do
                cancelled ← if b then cancel_pending now e.id else pure 0
                route_or_skip rt now e trigger e.team_id)
                db).1
      by_cancel false k = own-Reached e.team_id team_id db out own k
      by_cancel true k =
          let db2 = (cancel_pending now e.id db).1 in
          let (n, done, behind) = bind_ok (cancel_pending now e.id) _ db out k in
          subst
            (λ ms.
              Reached ms
                ((cancel_pending now e.id >>= λ c. route_or_skip rt now e trigger e.team_id) db).1)
            (owner_channels-cancel team_id db)
            (subst (λ p. Reached (owner_channels rt e trigger db2 team_id) p.1) (sym behind)
              (own-Reached e.team_id team_id db2 out own (ap (λ p. p.0) (sym behind) ∙ k)))
