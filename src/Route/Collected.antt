-- ===== src/Route/Collected.antt =====
-- What `_matched_notify_channels` of backend/app/services/routing.py collects: only live channels of
-- matching notify rules.
use k8s_alert_manager.Prelude.{
  ℕ, ◌≡◌, inl, inr, Bool, true, false, ◌||◌, Option, none, some, List, [], ◌∷◌, is_some, All,
  All-append, All-map, All-filtered, All-Any, Any, filter, filter_map-Any, ==_iff, Bool-cases,
  arith, if◌then◌else◌,
}
use k8s_alert_manager.Runtime.{Runtime}
use k8s_alert_manager.Models.Alert.{EventStatus, AlertEvent}
use k8s_alert_manager.Models.Channel.{Channel}
use k8s_alert_manager.Models.Routing.{RoutingRule, is_notify}
use k8s_alert_manager.Models.Db.{Db, get_channel}
use k8s_alert_manager.Routing.Admits.{Admits}
use k8s_alert_manager.Routing.Evaluate.{matches_rule}
use k8s_alert_manager.Routing.Matched.{evaluate-matched_iff}
use k8s_alert_manager.Route.Owner.{
  Matches, has_channel, add_channel, add_channels, rule_channels, team_rules, notify_rules,
  matched_channels_from, matched_notify_channels,
}
use k8s_alert_manager.Models.Outbox.{NotificationOutbox}
use k8s_alert_manager.Route.Event.{suppressing_rule, owner_channels}
use k8s_alert_manager.Route.Growth.{IsForMatch}

-- The channel is named by the rule and not deleted.
abbrev pub IsLiveOf : Db → RoutingRule → Channel → Type 0
IsLiveOf db rule c =
    Any (λ id. get_channel db id ≡ some c) rule.channels × (is_some c.deleted_at ≡ false)

module _ (P : Channel × RoutingRule → Type 0) (rule : RoutingRule) where
  All-add_channel :
      (ms : Matches) (c : Channel)
      → (is_some c.deleted_at ≡ false → P (c, rule))
      → All P ms
      → All P (add_channel rule ms c)
  All-add_channel ms c new h = elim (Bool-cases (is_some c.deleted_at || has_channel c.id ms)) [
    | inl skipped ↦ rw skipped h
    | inr fresh ↦ rw fresh (All-append P ms ((c, rule) ∷ []) h (new (ground arith), tt))
  ]

  All-add_channels :
      (ms : Matches) (cs : List Channel)
      → All (λ c. is_some c.deleted_at ≡ false → P (c, rule)) cs
      → All P ms
      → All P (add_channels rule ms cs)
  unfolding add_channels
  All-add_channels ms [] new h = h
  All-add_channels ms (c ∷ cs) new h =
      All-add_channels (add_channel rule ms c) cs new.1 (All-add_channel ms c new.0 h)

module _ (rt : Runtime) (db : Db) (e : AlertEvent) (trigger : EventStatus) where
  -- A matching notify rule of the team, and a live channel that it names.
  abbrev pub IsNotified : ℕ → Channel × RoutingRule → Type 0
  IsNotified team_id m =
      Any (λ x. x ≡ m.1) db.rules
      × (m.1.team_id ≡ team_id)
      × (is_notify m.1.action ≡ true)
      × Admits rt e m.1 m.1.matchers trigger
      × IsLiveOf db m.1 m.0

  module _ (P : Channel × RoutingRule → Type 0) where
    matched_channels_from-All :
        (ms : Matches) (rs : List RoutingRule)
        → All
            (λ r. matches_rule rt e trigger r ≡ true → (c : Channel) → IsLiveOf db r c → P (c, r))
            rs
        → All P ms
        → All P (matched_channels_from rt db e trigger ms rs)
    unfolding matched_channels_from
    matched_channels_from-All ms [] new h = h
    matched_channels_from-All ms (r ∷ rs) new h =
        matched_channels_from-All
          (if matches_rule rt e trigger r then add_channels r ms (rule_channels db r) else ms) rs
          new.1
          (elim (Bool-cases (matches_rule rt e trigger r)) [
            | inl on ↦ rw on (
                All-add_channels P r ms (rule_channels db r)
                  (All-map _ _ (rule_channels db r) (λ c named live. new.0 on c (named, live))
                    (filter_map-Any (get_channel db) r.channels))
                  h)
            | inr off ↦ rw off h
          ])

  pub matched_notify_channels-IsNotified :
      (team_id : ℕ) (shared : Bool)
      → All
          (IsNotified team_id)
          (matched_notify_channels rt db e trigger (notify_rules db team_id shared))
  unfolding matched_notify_channels notify_rules
  matched_notify_channels-IsNotified team_id shared =
      matched_channels_from-All (IsNotified team_id) [] _
        (All-map _ _ (filter (λ r. is_notify r.action) (team_rules db team_id shared))
          (λ r h on c live. (
            h.0.0,
            (==_iff r.team_id team_id).0 (ground (arith, h.0.1)),
            h.1,
            (evaluate-matched_iff rt e r r.matchers trigger).0 on,
            live,
          ))
          (All-filtered _ (λ r. is_notify r.action) (team_rules db team_id shared)
            (All-filtered _ _ db.rules (All-Any db.rules))))
        tt

  -- The row is for a live channel that a matching notify rule of the team names, under that rule.
  abbrev pub IsOwned : ℕ → NotificationOutbox → Type 0
  IsOwned team_id r = (m : Channel × RoutingRule) × IsNotified team_id m × IsForMatch m r

  pub owner_channels-IsNotified :
      (team_id : ℕ) → All (IsNotified team_id) (owner_channels rt e trigger db team_id)
  unfolding owner_channels
  owner_channels-IsNotified team_id = by_rule (suppressing_rule rt e trigger db team_id)
    where
      by_rule :
          (o : Option RoutingRule)
          → All (IsNotified team_id) (elim o [
            | some rule ↦ []
            | none ↦ matched_notify_channels rt db e trigger (notify_rules db team_id false)
          ])
      by_rule none = matched_notify_channels-IsNotified team_id false
      by_rule (some rule) = tt

  pub of_match :
      (team_id : ℕ) (r : NotificationOutbox) (ms : Matches)
      → All (IsNotified team_id) ms
      → Any (λ m. IsForMatch m r) ms
      → IsOwned team_id r
  of_match team_id r [] h k = absurd k
  of_match team_id r (m ∷ ms) h (inl here) = (m, h.0, here)
  of_match team_id r (m ∷ ms) h (inr later) = of_match team_id r ms h.1 later
