-- ===== src/Route/Notified.antt =====
-- Every channel of every matching notify rule gets its row: `_matched_notify_channels` and `route_event`
-- of backend/app/services/routing.py.
use k8s_alert_manager.Prelude.{
  ℕ, ◌≡◌, sym, subst, inl, inr, true, false, not, ◌&&◌, ◌||◌, none, some, [], ◌∷◌, any, is_some,
  All, All-map, All-filtered, Any, All→find-none, ◌==◌, ==_iff, Bool-cases, arith,
}
use k8s_alert_manager.Runtime.{Runtime}
use k8s_alert_manager.Models.Alert.{EventStatus, AlertEvent}
use k8s_alert_manager.Models.Channel.{Channel}
use k8s_alert_manager.Models.Outbox.{transition}
use k8s_alert_manager.Models.Routing.{RoutingRule, is_suppress, is_notify}
use k8s_alert_manager.Models.Db.{Db, get_channel}
use k8s_alert_manager.Exec.{ok}
use k8s_alert_manager.Staging.{has_key}
use k8s_alert_manager.Routing.Admits.{Admits}
use k8s_alert_manager.Routing.Evaluate.{matches_rule}
use k8s_alert_manager.Routing.Matched.{evaluate-matched_iff}
use k8s_alert_manager.Route.Owner.{
  Matches, has_channel, team_rules, suppress_rules, notify_rules, matched_channels_from,
  matched_notify_channels,
}
use k8s_alert_manager.Route.Event.{RoutingOutcome, suppressing_rule, owner_channels, route_event}
use k8s_alert_manager.Route.Repeats.{HasRow}
use k8s_alert_manager.Route.Reaches.{route_event-Reached}
use k8s_alert_manager.Route.Covered.{filter-Any, named-Any, covers_matched}

module _ (rt : Runtime) (db : Db) (e : AlertEvent) (trigger : EventStatus) where
  -- A suppress rule of the team that matches.
  abbrev pub Suppresses : ℕ → RoutingRule → Type 0
  Suppresses team_id s =
      (s.team_id ≡ team_id) × (is_suppress s.action ≡ true) × Admits rt e s s.matchers trigger

  none-suppressing :
      (team_id : ℕ)
      → All (λ s. ¬ Suppresses team_id s) db.rules
      → suppressing_rule rt e trigger db team_id ≡ none
  unfolding suppressing_rule suppress_rules
  none-suppressing team_id h =
      All→find-none (matches_rule rt e trigger) (suppress_rules db team_id false) (
        All-map _ _ (suppress_rules db team_id false) (λ s k. silent s k.0.0 k.0.1 k.1)
          (All-filtered _ (λ r. is_suppress r.action) (team_rules db team_id false)
            (All-filtered _ _ db.rules h)))
    where
      silent :
          (s : RoutingRule)
          → (¬ Suppresses team_id s)
          → (s.team_id == team_id && s.enabled && (not false || s.include_shared)) ≡ true
          → is_suppress s.action ≡ true
          → matches_rule rt e trigger s ≡ false
      silent s refuses own action = elim (Bool-cases (matches_rule rt e trigger s)) [
        | inl on ↦ absurd (
            refuses (
              (==_iff s.team_id team_id).0 (ground (arith, own)),
              action,
              (evaluate-matched_iff rt e s s.matchers trigger).0 on,
            ))
        | inr off ↦ off
      ]

  collected :
      (team_id : ℕ) (r : RoutingRule) (c : Channel)
      → All (λ s. ¬ Suppresses team_id s) db.rules
      → Any (λ x. x ≡ r) db.rules
      → r.team_id ≡ team_id
      → is_notify r.action ≡ true
      → Admits rt e r r.matchers trigger
      → Any (λ id. get_channel db id ≡ some c) r.channels
      → is_some c.deleted_at ≡ false
      → has_channel c.id (owner_channels rt e trigger db team_id) ≡ true
  unfolding owner_channels matched_notify_channels notify_rules
  collected team_id r c quiet stored own action admits named live =
      subst
        (λ o.
          has_channel c.id (elim o [
            | some rule ↦ []
            | none ↦ matched_channels_from rt db e trigger [] (notify_rules db team_id false)
          ])
          ≡ true)
        (sym (none-suppressing team_id quiet))
        (covers_matched rt db e trigger (notify_rules db team_id false) [] r c
          (filter-Any (λ x. is_notify x.action) (team_rules db team_id false) r action
            (filter-Any _ db.rules r
              (ground (arith, (==_iff r.team_id team_id).1 own, admits.enabled)) stored))
          ((evaluate-matched_iff rt e r r.matchers trigger).1 admits)
          (named-Any db r.channels c named) live)

-- What holds of the rows of all collected channels holds of the row of each.
row_of_collected :
    (event_id : ℕ) (trigger : EventStatus) (db : Db) (ms : Matches) (id : ℕ)
    → All (HasRow event_id trigger db) ms
    → has_channel id ms ≡ true
    → any (has_key event_id id (transition trigger)) db.outbox ≡ true
row_of_collected event_id trigger db [] id h k = absurd (ground (arith, k))
row_of_collected event_id trigger db (m ∷ ms) id h k = elim (Bool-cases (m.0.id == id)) [
  | inl same ↦
      subst (λ n. any (has_key event_id n (transition trigger)) db.outbox ≡ true)
        ((==_iff m.0.id id).0 same) h.0
  | inr other ↦ row_of_collected event_id trigger db ms id h.1 (rw other at k)
]

-- When routing an event of a team returns, and no suppress rule of the team matches it, then for every
-- notify rule of the team that matches and every channel of that rule that is not deleted, the outbox has
-- a row for the event, the channel and the trigger.
pub route_event-HasRow :
    (rt : Runtime) (now : ℕ) (e : AlertEvent) (trigger : EventStatus) (db : Db) (team_id : ℕ)
    (r : RoutingRule) (c : Channel) (out : RoutingOutcome)
    → e.team_id ≡ some team_id
    → All (λ s. ¬ Suppresses rt db e trigger team_id s) db.rules
    → Any (λ x. x ≡ r) db.rules
    → r.team_id ≡ team_id
    → is_notify r.action ≡ true
    → Admits rt e r r.matchers trigger
    → Any (λ id. get_channel db id ≡ some c) r.channels
    → is_some c.deleted_at ≡ false
    → (route_event rt now e trigger db).0 ≡ ok out
    → any (has_key e.id c.id (transition trigger)) (route_event rt now e trigger db).1.outbox ≡ true
route_event-HasRow rt now e trigger db team_id r c out own quiet stored mine action admits named
      live done =
    row_of_collected e.id trigger (route_event rt now e trigger db).1
      (owner_channels rt e trigger db team_id) c.id
      (route_event-Reached rt now e trigger team_id db out own done)
      (collected rt db e trigger team_id r c quiet stored mine action admits named live)
