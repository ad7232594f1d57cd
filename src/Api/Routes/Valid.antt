-- ===== src/Api/Routes/Valid.antt =====
-- When a rule of backend/app/api/routes.py is valid, and what each check gives for it.
use k8s_alert_manager.Prelude.{
  ℕ, ◌≡◌, refl, sym, ap, subst, ◌∙◌, ◌⊎◌, inl, inr, Bool, true, false, not, Option, none, some,
  List, [], ◌∷◌, All, All-map, ◌==◌, ==_iff, Bool-cases, is_empty, arith,
}
use k8s_alert_manager.Runtime.{Runtime}
use k8s_alert_manager.Models.Routing.{RoutingRule, Action, notify, suppress, is_suppress}
use k8s_alert_manager.Models.Channel.{Channel}
use k8s_alert_manager.Models.Db.{Db}
use k8s_alert_manager.Exec.{ok, pure}
use k8s_alert_manager.Exec.Returns.{ok-injective}
use k8s_alert_manager.Api.Routes.Checks.{
  RouteWrite, or_none, every, demand, is_valid_pattern, is_valid_matcher, are_valid_severities,
  is_positive, is_valid_escalation, validate_body, live_channel, unique, is_own, resolve_channels,
  may_escalate_to, resolve_escalation_channels,
}
use k8s_alert_manager.Api.Routes.Unchanged.{demand-ok, every-All}

-- A channel that is not deleted, and the team's own.
abbrev pub IsOwn : Db → ℕ → ℕ → Type 0
IsOwn db team_id id = (c : Channel) × (live_channel db id ≡ some c) × (c.team_id ≡ team_id)

-- A channel that is not deleted, and the team's own or open to other teams.
abbrev pub IsOpen : Db → ℕ → ℕ → Type 0
IsOpen db team_id id =
    (c : Channel) × (live_channel db id ≡ some c)
    × ((c.team_id ≡ team_id) ⊎ (c.allow_cross_team_escalation ≡ true))

pub record IsValid (rt : Runtime) (db : Db) (rule : RoutingRule) : Type 0 where
  pub patterns : All (λ m. rt.compiles m.pattern ≡ true) rule.matchers
  pub included : All (λ p. rt.compiles p ≡ true) (or_none rule.namespaces_include)
  pub excluded : All (λ p. rt.compiles p ≡ true) (or_none rule.namespaces_exclude)
  pub own : All (IsOwn db rule.team_id) rule.channels
  pub open_ : All (IsOpen db rule.team_id) rule.escalation_channels
  pub silent : rule.action ≡ suppress → (rule.channels ≡ []) × (rule.escalation_enabled ≡ false)
  pub heard : rule.action ≡ notify → is_empty rule.channels ≡ false
  pub timed :
      rule.escalation_enabled ≡ true
      → (is_positive rule.escalation_after_minutes ≡ true)
        × (is_empty rule.escalation_channels ≡ false)

module _ (rt : Runtime) where
  abbrev pub IsChecked : RouteWrite → Type 0
  IsChecked body =
      (every (is_valid_pattern rt) (or_none body.namespaces_include) ≡ true)
      × (every (is_valid_pattern rt) (or_none body.namespaces_exclude) ≡ true)
      × (every (is_valid_matcher rt) body.matchers ≡ true)
      × (is_valid_escalation body ≡ true)

  pub body-IsChecked :
      (body : RouteWrite) (db : Db) → (validate_body rt body db).0 ≡ ok tt → IsChecked body
  unfolding validate_body
  body-IsChecked body db h =
      let (s, e1) = demand-ok (are_valid_severities rt body.severities) _ db tt h in
      let (i, e2) =
        demand-ok (every (is_valid_pattern rt) (or_none body.namespaces_include)) _ db tt
          (ap (λ r. r.0) (sym e1) ∙ h) in
      let (e, e3) =
        demand-ok (every (is_valid_pattern rt) (or_none body.namespaces_exclude)) _ db tt
          (ap (λ r. r.0) (sym (e1 ∙ e2)) ∙ h) in
      let (m, e4) =
        demand-ok (every (is_valid_matcher rt) body.matchers) _ db tt
          (ap (λ r. r.0) (sym (e1 ∙ e2 ∙ e3)) ∙ h) in
      (i, e, m, last (is_valid_escalation body) (ap (λ r. r.0) (sym (e1 ∙ e2 ∙ e3 ∙ e4)) ∙ h))
    where
      last : (b : Bool) → (demand b db).0 ≡ ok tt → b ≡ true
      last true k = refl
      last false k = absurd (ground arith)

is_own-IsOwn :
    (db : Db) (team_id id : ℕ) → is_own team_id (live_channel db id) ≡ true → IsOwn db team_id id
is_own-IsOwn db team_id id h = by_channel (live_channel db id) refl h
  where
    by_channel :
        (o : Option Channel)
        → live_channel db id ≡ o
        → is_own team_id o ≡ true
        → IsOwn db team_id id
    by_channel none e k = absurd (ground arith)
    by_channel (some c) e k = (c, e, (==_iff c.team_id team_id).0 k)

may_escalate-IsOpen :
    (db : Db) (team_id id : ℕ)
    → may_escalate_to team_id (live_channel db id) ≡ true
    → IsOpen db team_id id
may_escalate-IsOpen db team_id id h = by_channel (live_channel db id) refl h
  where
    by_channel :
        (o : Option Channel)
        → live_channel db id ≡ o
        → may_escalate_to team_id o ≡ true
        → IsOpen db team_id id
    by_channel none e k = absurd (ground arith)
    by_channel (some c) e k = elim (Bool-cases (c.team_id == team_id)) [
      | inl own ↦ (c, e, inl ((==_iff c.team_id team_id).0 own))
      | inr other ↦ (c, e, inr (ground (arith, other, k)))
    ]

pub unique-nonempty : (ids : List ℕ) → is_empty ids ≡ false → is_empty (unique ids) ≡ false
unique-nonempty [] h = h
unique-nonempty (id ∷ ids) h = refl

abbrev pub IsResolved : Db → ℕ → Action → List ℕ → Type 0
IsResolved db team_id action ids =
    All (IsOwn db team_id) ids
    × (is_suppress action ≡ true → ids ≡ [])
    × (is_suppress action ≡ false → is_empty ids ≡ false)

pub channels-IsResolved :
    (team_id : ℕ) (action : Action) (ids out : List ℕ) (db : Db)
    → (resolve_channels team_id action ids db).0 ≡ ok out
    → IsResolved db team_id action out
unfolding resolve_channels
channels-IsResolved team_id action ids out db h = elim (Bool-cases (is_suppress action)) [
  | inl off ↦
      let (none_given, e) = demand-ok (is_empty ids) (λ u. pure []) db out (rw off at h) in
      let same = ok-injective [] out (ap (λ r. r.0) (sym e) ∙ (rw off at h)) in
      subst (IsResolved db team_id action) same
        (tt, (λ quiet. refl), λ loud. absurd (ground (arith, off, loud)))
  | inr on ↦
      let owned = every (λ id. is_own team_id (live_channel db id)) (unique ids) in
      let (some_given, e) = demand-ok (not (is_empty ids)) _ db out (rw on at h) in
      let (own, f) =
        demand-ok owned (λ v. pure (unique ids)) db out (ap (λ r. r.0) (sym e) ∙ (rw on at h)) in
      let same = ok-injective (unique ids) out (ap (λ r. r.0) (sym (e ∙ f)) ∙ (rw on at h)) in
      subst (IsResolved db team_id action) same (
        All-map _ _ (unique ids) (λ id k. is_own-IsOwn db team_id id k)
            (every-All (λ id. is_own team_id (live_channel db id)) (unique ids) own),
        (λ quiet. absurd (ground (arith, on, quiet))),
        λ loud. unique-nonempty ids (ground (arith, some_given)),
      )
]

pub escalations-IsOpen :
    (team_id : ℕ) (ids out : List ℕ) (db : Db)
    → (resolve_escalation_channels team_id ids db).0 ≡ ok out
    → All (IsOpen db team_id) out × (unique ids ≡ out)
unfolding resolve_escalation_channels
escalations-IsOpen team_id ids out db h =
    let open_to = every (λ id. may_escalate_to team_id (live_channel db id)) (unique ids) in
    let (free, e) = demand-ok open_to (λ v. pure (unique ids)) db out h in
    let same = ok-injective (unique ids) out (ap (λ r. r.0) (sym e) ∙ h) in
    (
      subst (All (IsOpen db team_id)) same (
          All-map _ _ (unique ids) (λ id k. may_escalate-IsOpen db team_id id k)
            (every-All (λ id. may_escalate_to team_id (live_channel db id)) (unique ids) free)),
      same,
    )
