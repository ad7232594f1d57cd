-- ===== src/Route/Covered.antt =====
-- Every live channel of every matching rule is collected: `_matched_notify_channels` of
-- backend/app/services/routing.py.
use k8s_alert_manager.Prelude.{
  ℕ, ◌≡◌, refl, sym, ap, subst, ◌∙◌, inl, inr, Bool, true, false, ◌||◌, Option, none, some, List,
  [], ◌∷◌, any-append, filter, filter_map, is_some, Any, ◌==◌, ==_refl, Bool-cases, arith,
  if◌then◌else◌,
}
use mathlib.Core.Option.{some-injective}
use k8s_alert_manager.Runtime.{Runtime}
use k8s_alert_manager.Models.Alert.{EventStatus, AlertEvent}
use k8s_alert_manager.Models.Channel.{Channel}
use k8s_alert_manager.Models.Routing.{RoutingRule}
use k8s_alert_manager.Models.Db.{Db, get_channel}
use k8s_alert_manager.Routing.Evaluate.{matches_rule}
use k8s_alert_manager.Route.Owner.{
  Matches, has_channel, add_channel, add_channels, rule_channels, matched_channels_from,
}

pub filter-Any :
    {A : Type 0} (p : A → Bool) (xs : List A) (x : A)
    → p x ≡ true
    → Any (λ y. y ≡ x) xs
    → Any (λ y. y ≡ x) (filter p xs)
filter-Any p [] x h k = absurd k
filter-Any p (y ∷ ys) x h (inl same) = rw (ap p same, h) (inl same)
filter-Any p (y ∷ ys) x h (inr k) = elim (Bool-cases (p y)) [
  | inl e ↦ rw e (inr (filter-Any p ys x h k))
  | inr e ↦ rw e (filter-Any p ys x h k)
]

-- A channel that an id names is among the channels of the ids.
pub named-Any :
    (db : Db) (ids : List ℕ) (c : Channel)
    → Any (λ id. get_channel db id ≡ some c) ids
    → Any (λ x. x ≡ c) (filter_map (get_channel db) ids)
named-Any db [] c h = absurd h
named-Any db (id ∷ ids) c (inl found) = by_value (get_channel db id) found
  where
    by_value :
        (o : Option Channel)
        → o ≡ some c
        → Any
            (λ x. x ≡ c)
            (elim o [
              | none ↦ filter_map (get_channel db) ids
              | some y ↦ y ∷ filter_map (get_channel db) ids
            ])
    by_value none k = absurd (ground (arith, k))
    by_value (some y) k = inl (some-injective y c k)
named-Any db (id ∷ ids) c (inr h) = by_value (get_channel db id) (named-Any db ids c h)
  where
    by_value :
        (o : Option Channel)
        → Any (λ x. x ≡ c) (filter_map (get_channel db) ids)
        → Any
            (λ x. x ≡ c)
            (elim o [
              | none ↦ filter_map (get_channel db) ids
              | some y ↦ y ∷ filter_map (get_channel db) ids
            ])
    by_value none k = k
    by_value (some y) k = inr k

module _ (id : ℕ) (rule : RoutingRule) where
  keeps_channel :
      (ms : Matches) (c : Channel)
      → has_channel id ms ≡ true
      → has_channel id (add_channel rule ms c) ≡ true
  keeps_channel ms c h = elim (Bool-cases (is_some c.deleted_at || has_channel c.id ms)) [
    | inl skipped ↦ rw skipped h
    | inr fresh ↦ rw fresh (any-append (λ m. m.0.id == id) ms ((c, rule) ∷ []) ∙ rw h refl)
  ]

  keeps_channels :
      (ms : Matches) (cs : List Channel)
      → has_channel id ms ≡ true
      → has_channel id (add_channels rule ms cs) ≡ true
  unfolding add_channels
  keeps_channels ms [] h = h
  keeps_channels ms (c ∷ cs) h = keeps_channels (add_channel rule ms c) cs (keeps_channel ms c h)

adds_channel :
    (rule : RoutingRule) (ms : Matches) (c : Channel)
    → is_some c.deleted_at ≡ false
    → has_channel c.id (add_channel rule ms c) ≡ true
adds_channel rule ms c live = elim (Bool-cases (has_channel c.id ms)) [
  | inl there ↦ rw (live, there) there
  | inr fresh ↦
      rw (live, fresh)
        (any-append (λ m. m.0.id == c.id) ms ((c, rule) ∷ []) ∙ ground (arith, ==_refl c.id))
]

adds_channels :
    (rule : RoutingRule) (ms : Matches) (cs : List Channel) (c : Channel)
    → is_some c.deleted_at ≡ false
    → Any (λ x. x ≡ c) cs
    → has_channel c.id (add_channels rule ms cs) ≡ true
unfolding add_channels
adds_channels rule ms [] c live h = absurd h
adds_channels rule ms (x ∷ cs) c live (inl same) =
    keeps_channels c.id rule (add_channel rule ms x) cs (
      subst (λ y. has_channel c.id (add_channel rule ms y) ≡ true) (sym same)
        (adds_channel rule ms c live))
adds_channels rule ms (x ∷ cs) c live (inr h) =
    adds_channels rule (add_channel rule ms x) cs c live h

module _ (rt : Runtime) (db : Db) (e : AlertEvent) (trigger : EventStatus) where
  abbrev round : Matches → RoutingRule → Matches
  round ms r = if matches_rule rt e trigger r then add_channels r ms (rule_channels db r) else ms

  keeps_matched :
      (id : ℕ) (rs : List RoutingRule) (ms : Matches)
      → has_channel id ms ≡ true
      → has_channel id (matched_channels_from rt db e trigger ms rs) ≡ true
  unfolding matched_channels_from
  keeps_matched id [] ms h = h
  keeps_matched id (r ∷ rs) ms h =
      keeps_matched id rs (round ms r) (elim (Bool-cases (matches_rule rt e trigger r)) [
        | inl on ↦ rw on (keeps_channels id r ms (rule_channels db r) h)
        | inr off ↦ rw off h
      ])

  pub covers_matched :
      (rs : List RoutingRule) (ms : Matches) (r : RoutingRule) (c : Channel)
      → Any (λ x. x ≡ r) rs
      → matches_rule rt e trigger r ≡ true
      → Any (λ x. x ≡ c) (rule_channels db r)
      → is_some c.deleted_at ≡ false
      → has_channel c.id (matched_channels_from rt db e trigger ms rs) ≡ true
  unfolding matched_channels_from
  covers_matched [] ms r c h on there live = absurd h
  covers_matched (x ∷ rs) ms r c (inl same) on there live = keeps_matched c.id rs (round ms x) (
      subst (λ y. has_channel c.id (round ms y) ≡ true) (sym same)
        (rw on (adds_channels r ms (rule_channels db r) c live there)))
  covers_matched (x ∷ rs) ms r c (inr h) on there live =
      covers_matched rs (round ms x) r c h on there live
