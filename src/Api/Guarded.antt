-- ===== src/Api/Guarded.antt =====
-- Who may change an alert: the requests of backend/app/api/alerts.py behind their guards.
use k8s_alert_manager.Prelude.{
  ℕ, String, ◌≡◌, refl, sym, ap, ◌∙◌, ◌⊎◌, inl, inr, Bool, true, Option, none, some, List, [], ◌∷◌,
  filter, Bool-cases, arith,
}
use k8s_alert_manager.Runtime.{Runtime}
use k8s_alert_manager.Models.Alert.{AlertEvent}
use k8s_alert_manager.Models.User.{User, TeamMembership}
use k8s_alert_manager.Models.Db.{Db, get_event, get_team}
use k8s_alert_manager.Exec.{Exec, ok, multiple_results, http, ◌>>◌}
use k8s_alert_manager.Exec.Keeps.{Steps, Steps-pure, Steps-raise, Steps-bind, Steps-if}
use k8s_alert_manager.Exec.Returns.{returned, ok-of_returned}
use k8s_alert_manager.Exec.Reads.{Same, Same-preorder, Reads-bind}
use k8s_alert_manager.Ingest.{one_or_none}
use k8s_alert_manager.Api.Access.{
  is_membership, membership_of, or_404, need_membership, member_access, get_event_or_404,
  get_team_or_404, authorize_event_access, guarded,
}
use k8s_alert_manager.Api.Alerts.{ack_alert, unack_alert, set_alert_assignee, resolve_test_alert}
use k8s_alert_manager.Api.Comments.{
  comment_on, create_alert_comment, with_body, validate_comment_body,
}
use k8s_alert_manager.Api.Reading.{IsMember, member_access-IsMember}

-- An admin, or a member of the event's team.
abbrev pub MayChange : AlertEvent → User → Db → Type 0
MayChange event user db =
    (user.is_admin ≡ true) ⊎ ((team : ℕ) × (event.team_id ≡ some team) × IsMember team user.id db)

pub one_or_none-Same : {A : Type 0} (xs : List A) → Steps Same (one_or_none xs)
one_or_none-Same [] = Steps-pure Same-preorder none
one_or_none-Same (x ∷ []) = Steps-pure Same-preorder (some x)
one_or_none-Same (x ∷ y ∷ xs) = Steps-raise Same-preorder multiple_results

pub membership_of-Same : (team_id user_id : ℕ) → Steps Same (membership_of team_id user_id)
membership_of-Same team_id user_id = record {
  at = λ db. (one_or_none-Same (filter (is_membership team_id user_id) db.memberships)).at db;
}

pub need_membership-Same :
    {A : Type 0} (a : A) (o : Option TeamMembership) → Steps Same (need_membership a o)
need_membership-Same a none = Steps-raise Same-preorder (http 403)
need_membership-Same a (some m) = Steps-pure Same-preorder a

member_access-Same : (user : User) (o : Option ℕ) → Steps Same (member_access user o)
member_access-Same user none = Steps-raise Same-preorder (http 403)
member_access-Same user (some team_id) =
    Steps-bind Same-preorder (membership_of team_id user.id) _ (membership_of-Same team_id user.id)
      (need_membership-Same tt)

authorize-Same : (event : AlertEvent) (user : User) → Steps Same (authorize_event_access event user)
unfolding authorize_event_access
authorize-Same event user =
    Steps-if Same-preorder user.is_admin _ _ (λ on. Steps-pure Same-preorder tt)
      (λ off. member_access-Same user event.team_id)

pub or_404-Same : {A : Type 0} (o : Option A) → Steps Same (or_404 o)
or_404-Same none = Steps-raise Same-preorder (http 404)
or_404-Same (some a) = Steps-pure Same-preorder a

get_event_or_404-Same : (id : ℕ) → Steps Same (get_event_or_404 id)
unfolding get_event_or_404
get_event_or_404-Same id = record { at = λ db. (or_404-Same (get_event db id)).at db }

pub get_team_or_404-Same : (id : ℕ) → Steps Same (get_team_or_404 id)
unfolding get_team_or_404
get_team_or_404-Same id = record { at = λ db. (or_404-Same (get_team db id)).at db }

authorize-MayChange :
    (event : AlertEvent) (user : User) (db : Db)
    → (authorize_event_access event user db).0 ≡ ok tt
    → MayChange event user db
unfolding authorize_event_access
authorize-MayChange event user db h = elim (Bool-cases user.is_admin) [
  | inl admin ↦ inl admin
  | inr plain ↦ inr (by_team event.team_id refl (rw plain at h))
]
  where
    by_team :
        (o : Option ℕ)
        → event.team_id ≡ o
        → (member_access user o db).0 ≡ ok tt
        → (team : ℕ) × (event.team_id ≡ some team) × IsMember team user.id db
    by_team none e k = absurd (ground arith)
    by_team (some team) e k = (team, e, member_access-IsMember team user db k)

found-of_404 :
    (id : ℕ) (event : AlertEvent) (db : Db)
    → (get_event_or_404 id db).0 ≡ ok event
    → get_event db id ≡ some event
unfolding get_event_or_404
found-of_404 id event db h = by_row (get_event db id) h
  where
    by_row : (o : Option AlertEvent) → (or_404 o db).0 ≡ ok event → o ≡ some event
    by_row none k = absurd (ground arith)
    by_row (some e) k = ground (arith, k)

-- When it returns, the event was found, the user may change it, and only the change has run.
pub guarded-MayChange :
    {A : Type 0} (id : ℕ) (user : User) (change : AlertEvent → Exec A) (db : Db) (a : A)
    → (guarded id user change db).0 ≡ ok a
    → (event : AlertEvent) × (get_event db id ≡ some event)
      × MayChange event user db
      × (guarded id user change db ≡ change event db)
unfolding guarded
guarded-MayChange id user change db a h =
    let rest : AlertEvent → Exec _ =
      λ event. (do authorize_event_access event user; change event) in
    let (event, found, first) =
      Reads-bind (get_event_or_404 id) rest (get_event_or_404-Same id) db a h in
    let (unit, allowed, second) =
      Reads-bind (authorize_event_access event user) (λ u. change event) (authorize-Same event user)
        db a (ap (λ r. r.0) (sym first) ∙ h) in
    (
      event,
      found-of_404 id event db found,
      authorize-MayChange event user db allowed,
      first ∙ second,
    )

-- The requests that change an event.
pub data Change : Type 0 where
  ack unack resolve_test : Change
  assign : Option ℕ → Change
  comment : String → Change

module _ (rt : Runtime) (now : ℕ) where
  -- Whether a request is answered rather than refused.
  abbrev pub succeeds : Change → ℕ → User → Db → Bool
  succeeds ack id user db = returned (ack_alert rt now id user db).0
  succeeds unack id user db = returned (unack_alert rt now id user db).0
  succeeds resolve_test id user db = returned (resolve_test_alert rt now id user db).0
  succeeds (assign user_id) id user db = returned (set_alert_assignee rt now id user_id user db).0
  succeeds (comment text) id user db = returned (create_alert_comment rt now id text user db).0

module _ (rt : Runtime) (now : ℕ) (id : ℕ) (user : User) (db : Db) where
  abbrev Permitted : Type 0
  Permitted = (event : AlertEvent) × (get_event db id ≡ some event) × MayChange event user db

  by_guards :
      {A : Type 0} (change : AlertEvent → Exec A)
      → returned (guarded id user change db).0 ≡ true
      → Permitted
  by_guards change h =
      let (a, same) = ok-of_returned (guarded id user change db).0 h in
      let (event, found, may, rest) = guarded-MayChange id user change db a same in
      (event, found, may)

  -- Whichever request changes an event, when it is answered and not refused, the event is there and the
  -- user is an admin or a member of its team; a share is never enough.
  pub succeeds-MayChange :
      (c : Change)
      → succeeds rt now c id user db ≡ true
      → (event : AlertEvent) × (get_event db id ≡ some event) × MayChange event user db
  unfolding ack_alert unack_alert resolve_test_alert set_alert_assignee create_alert_comment
  succeeds-MayChange ack h = by_guards _ h
  succeeds-MayChange unack h = by_guards _ h
  succeeds-MayChange resolve_test h = by_guards _ h
  succeeds-MayChange (assign user_id) h = by_guards _ h
  succeeds-MayChange (comment text) h = by_body (validate_comment_body rt text) h
    where
      by_body :
          (o : Option String)
          → returned
              (with_body rt now o
                (λ body. guarded id user (λ event. comment_on rt now id body event user))
                db).0
            ≡ true
          → Permitted
      by_body none k = absurd (ground arith)
      by_body (some body) k = by_guards _ k
