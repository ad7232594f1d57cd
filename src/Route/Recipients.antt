-- ===== src/Route/Recipients.antt =====
-- Who can be notified: what `route_event` adds to the outbox, whatever the rules and shares are.
use k8s_alert_manager.Prelude.{
  ℕ, ◌≡◌, refl, ◌⊎◌, inl, inr, Bool, true, false, ◌&&◌, Option, none, some, List, [], ◌∷◌, Any,
  is_empty, if◌then◌else◌, Option-cases,
}
use k8s_alert_manager.Runtime.{Runtime}
use k8s_alert_manager.Models.Alert.{EventStatus, is_resolved, AlertEvent}
use k8s_alert_manager.Models.Outbox.{transition, Payload, NotificationOutbox}
use k8s_alert_manager.Models.Share.{AlertShare}
use k8s_alert_manager.Models.Cluster.{Team}
use k8s_alert_manager.Models.Routing.{RoutingRule}
use k8s_alert_manager.Models.Db.{Db}
use k8s_alert_manager.Exec.{assertion, pure, ◌>>=◌}
use k8s_alert_manager.Exec.Keeps.{Steps, Steps-pure, Steps-bind, Steps-if, Steps-raise}
use k8s_alert_manager.Route.Owner.{suppress_rules, Matches, stage_outbox}
use k8s_alert_manager.Route.Timers.{cancel_pending}
use k8s_alert_manager.Route.Event.{
  route_shared_view, route_shares, suppressing_rule, owner_channels, matching_shares,
  mark_or_escalate, route_or_skip, stage_all, notify_target, route_with, route_team, route_event,
}
use k8s_alert_manager.Route.Collected.{IsOwned, owner_channels-IsNotified, of_match}
use k8s_alert_manager.Route.Growth.{
  Grows, Grows-preorder, Grows-weaken, Steps-weaken, IsFreshFor, IsForMatch, Steps-outbox,
  stage_outbox-Grows, schedule_escalations-Grows, cancel_pending-Grows,
}

module _ (rt : Runtime) (now : ℕ) (e : AlertEvent) (trigger : EventStatus) where
  abbrev pub Fresh : ℕ → NotificationOutbox → Type 0
  Fresh = IsFreshFor e.id (transition trigger)

  -- The row is for the target team of one of the shares.
  abbrev pub ToTarget : List AlertShare → NotificationOutbox → Type 0
  ToTarget shares r = Any (λ s. Fresh s.target_team_id r) shares

  route_shared_view-Grows :
      (share : AlertShare) (payload : Payload)
      → Steps
          (Grows (Fresh share.target_team_id))
          (route_shared_view rt now e trigger share payload)
  unfolding route_shared_view
  route_shared_view-Grows share payload = record { at = λ db. (notify _ _).at db }
    where
      team : ℕ
      team = share.target_team_id

      notify :
          (blocked : Bool) (matched : Matches)
          → Steps (Grows (Fresh team)) (notify_target rt now e trigger blocked matched team payload)
      notify true matched = Steps-pure (Grows-preorder (Fresh team)) 0
      notify false [] = Steps-pure (Grows-preorder (Fresh team)) 0
      notify false (m ∷ ms) =
          Steps-weaken _ _ _ (λ r h. h.0)
            (stage_outbox-Grows now e.id trigger team payload (m ∷ ms))

  pub route_shares-Grows :
      (payload : Payload) (shares : List AlertShare)
      → Steps (Grows (ToTarget shares)) (route_shares rt now e trigger payload shares)
  unfolding route_shares
  route_shares-Grows payload [] = Steps-pure (Grows-preorder _) 0
  route_shares-Grows payload (s ∷ shares) =
      Steps-bind (Grows-preorder _) _ _
        (Steps-weaken _ _ _ (λ r h. inl h) (route_shared_view-Grows s payload))
        λ here.
          Steps-bind (Grows-preorder _) _ _
            (Steps-weaken _ _ _ (λ r h. inr h) (route_shares-Grows payload shares))
            λ rest. Steps-pure (Grows-preorder _) _

  -- Rows for the matched channels of the owning team, if it is not suppressed, or for the targets
  -- of the shares.
  abbrev Gains : Option RoutingRule → Matches → List AlertShare → ℕ → NotificationOutbox → Type 0
  Gains rule matched shares team_id r =
      (rule ≡ none)
        × IsFreshFor e.id (transition trigger) team_id r
        × Any (λ m. IsForMatch m r) matched
      ⊎ Any (λ s. IsFreshFor e.id (transition trigger) s.target_team_id r) shares

  module _ (rule : Option RoutingRule) (matched : Matches) (shares : List AlertShare) (team_id : ℕ)
      (owner : (rule ≡ none) ⊎ (matched ≡ [])) where
    stage_owner-Grows :
        (payload : Payload)
        → Steps
            (Grows (Gains rule matched shares team_id))
            (stage_outbox now e.id trigger team_id payload matched)
    stage_owner-Grows payload = elim owner [
      | inl free ↦
          Steps-weaken _ _ _ (λ r h. inl (free, h.0, h.1))
            (stage_outbox-Grows now e.id trigger team_id payload matched)
      | inr nobody ↦ rw nobody (unfold stage_outbox in Steps-pure (Grows-preorder _) 0)
    ]

    stage_all-Grows :
        (team : Option Team)
        → Steps
            (Grows (Gains rule matched shares team_id))
            (stage_all rt now e trigger team team_id matched shares)
    unfolding stage_all
    stage_all-Grows none = Steps-raise (Grows-preorder _) assertion
    stage_all-Grows (some team) = record {
      at = λ db.
          (Steps-bind (Grows-preorder _) _ _ (stage_owner-Grows _) λ created.
              Steps-bind (Grows-preorder _) _ _
                (Steps-weaken _ _ _ (λ r h. inr h) (route_shares-Grows _ shares))
                λ shared. Steps-pure (Grows-preorder _) _).at
            db;
    }

    mark-Grows :
        (rules : List RoutingRule)
        → Steps
            (Grows (Gains rule matched shares team_id))
            (mark_or_escalate rt now e trigger rule rules)
    mark-Grows rules = by_rule rule
      where
        by_rule :
            (rule' : Option RoutingRule)
            → Steps
                (Grows (Gains rule matched shares team_id))
                (mark_or_escalate rt now e trigger rule' rules)
        by_rule (some r) = unfold mark_or_escalate in Steps-outbox _ _ (λ db. refl)
        by_rule none =
            unfold mark_or_escalate in schedule_escalations-Grows _ rt now e trigger rules

    route_with-Grows :
        (rules : List RoutingRule) (team : Option Team)
        → Steps
            (Grows (Gains rule matched shares team_id))
            (route_with rt now e trigger rule rules matched shares team team_id)
    unfolding route_with
    route_with-Grows rules team = Steps-bind (Grows-preorder _) _ _ (mark-Grows rules) λ marked.
        Steps-if (Grows-preorder _) (is_empty matched && is_empty shares) _ _
          (λ _. Steps-pure (Grows-preorder _) _)
          (λ _.
            Steps-bind (Grows-preorder _) _ _ (stage_all-Grows team)
              λ staged. Steps-pure (Grows-preorder _) _)

  owner_or_nobody :
      (db : Db) (team_id : ℕ)
      → (suppressing_rule rt e trigger db team_id ≡ none)
        ⊎ (owner_channels rt e trigger db team_id ≡ [])
  unfolding owner_channels
  owner_or_nobody db team_id = elim (Option-cases (suppressing_rule rt e trigger db team_id)) [
    | inl free ↦ inl free
    | inr (rule, found) ↦ inr (rw (found, owner_channels))
  ]

  -- What the outbox may gain: if none of the suppress rules of the owning team matches, rows for
  -- the live channels of its matching notify rules; and rows for the target teams of its matching
  -- view_notify shares.
  abbrev pub Allowed : Db → NotificationOutbox → Type 0
  Allowed db r =
      (team_id : ℕ) × (e.team_id ≡ some team_id)
      × ((suppressing_rule rt e trigger db team_id ≡ none)
            × IsFreshFor e.id (transition trigger) team_id r
            × IsOwned rt db e trigger team_id r
          ⊎ Any (λ s. IsFreshFor e.id (transition trigger) s.target_team_id r)
              (matching_shares rt e db team_id))

  route_team-Grows :
      (db : Db) (team_id : ℕ)
      → e.team_id ≡ some team_id
      → Grows (Allowed db) db (route_team rt now e trigger team_id db).1
  unfolding route_team
  route_team-Grows db team_id h =
      Grows-weaken _ _ db _ (λ r g. (team_id, h, allowed r g))
        ((route_with-Grows (suppressing_rule rt e trigger db team_id)
            (owner_channels rt e trigger db team_id) (matching_shares rt e db team_id) team_id
            (owner_or_nobody db team_id) _ _).at
          db)
    where
      allowed :
          (r : NotificationOutbox)
          → Gains
              (suppressing_rule rt e trigger db team_id)
              (owner_channels rt e trigger db team_id)
              (matching_shares rt e db team_id)
              team_id
              r
          → (suppressing_rule rt e trigger db team_id ≡ none)
              × IsFreshFor e.id (transition trigger) team_id r
              × IsOwned rt db e trigger team_id r
            ⊎ Any
                (λ s. IsFreshFor e.id (transition trigger) s.target_team_id r)
                (matching_shares rt e db team_id)
      allowed r (inl own) = inl (
        own.0,
        own.1,
        of_match rt db e trigger team_id r _ (owner_channels-IsNotified rt db e trigger team_id)
            own.2,
      )
      allowed r (inr shared) = inr shared

  skip-Grows :
      (db : Db) (o : Option ℕ)
      → e.team_id ≡ o
      → Grows (Allowed db) db (route_or_skip rt now e trigger o db).1
  skip-Grows db none h = (Grows-preorder (Allowed db)).same db
  skip-Grows db (some team_id) h = route_team-Grows db team_id h

  -- `route_event`, returning or raising, leaves every outbox row as it was and adds rows behind
  -- them: fresh rows for this event and trigger, each for the owning team if none of its suppress
  -- rules matches, under a notify rule of it that matches and for a channel that the rule names and
  -- that is not deleted, or for the target team of a matching view_notify share. An outbox with
  -- distinct keys keeps distinct keys.
  pub route_event-Grows : (db : Db) → Grows (Allowed db) db (route_event rt now e trigger db).1
  unfolding route_event
  route_event-Grows db = by_cancel (is_resolved trigger)
    where
      same_rules :
          (o : Option ℕ)
          → e.team_id ≡ o
          → let db2 = (cancel_pending now e.id db).1 in
            Grows (Allowed db) db2 (route_or_skip rt now e trigger o db2).1
      same_rules o h =
          unfold cancel_pending suppressing_rule matching_shares suppress_rules in
          skip-Grows (cancel_pending now e.id db).1 o h

      by_cancel :
          (b : Bool)
          → Grows
              (Allowed db)
              db
              ((do
                cancelled ← if b then cancel_pending now e.id else pure 0
                route_or_skip rt now e trigger e.team_id)
                db).1
      by_cancel false = skip-Grows db e.team_id refl
      by_cancel true =
          (Grows-preorder (Allowed db)).then_ db (cancel_pending now e.id db).1 _
            ((cancel_pending-Grows (Allowed db) rt now e trigger e.id).at db)
            (unfold cancel_pending in same_rules e.team_id refl)
