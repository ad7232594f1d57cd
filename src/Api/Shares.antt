-- ===== src/Api/Shares.antt =====
-- The requests on cross-team shares: backend/app/api/shares.py.
pub mod Table
pub mod Sound
use k8s_alert_manager.Prelude.{
  ℕ, suc, String, Bool, not, ◌&&◌, Option, none, some, List, [], ◌∷◌, ◌++◌, map, filter, any,
  update_where, ◌==◌, if◌then◌else◌,
}
use k8s_alert_manager.Text.{str}
use k8s_alert_manager.Runtime.{Runtime}
use k8s_alert_manager.Models.Share.{Mode, MatcherDict, AlertShare}
use k8s_alert_manager.Models.Cluster.{Team}
use k8s_alert_manager.Models.User.{User, owner, member}
use k8s_alert_manager.Models.Db.{Db, get_share, get_team}
use k8s_alert_manager.Exec.{Exec, http, assertion, pure, raise, modify, ◌>>=◌, ◌>>◌}
use k8s_alert_manager.Api.{log, Answer, quietly}
use k8s_alert_manager.Api.Access.{require_team_role, get_team_or_404, or_404}
use k8s_alert_manager.Api.Routes.{dumped}
use k8s_alert_manager.Api.Routes.Checks.{MatcherInput, or_none, every, demand, is_valid_matcher}

pub record ShareCreate : Type 0 where
  pub target_team_id : ℕ
  pub mode : Mode
  pub matchers : Option (List MatcherInput)

-- A partial update. A mode of none is a key that is absent or null, which both change nothing; matchers
-- of none are an absent key, `some none` is a null.
pub record ShareUpdate : Type 0 where
  pub mode : Option Mode
  pub matchers : Option (Option (List MatcherInput))

unfoldable pub get_share_or_404 : ℕ → Exec AlertShare
get_share_or_404 share_id db = or_404 (get_share db share_id) db

-- `if matchers`, which an empty list fails as well
abbrev pub matchers_to_json : Option (List MatcherInput) → Option (List MatcherDict)
matchers_to_json none = none
matchers_to_json (some []) = none
matchers_to_json (some (m ∷ ms)) = some (map dumped (m ∷ ms))

-- A share beside the slug and the name of the team at its other end.
pub record SharePayload : Type 0 where
  pub id : ℕ
  pub owner_team_id : ℕ
  pub target_team_id : ℕ
  pub team_slug : String
  pub team_name : String
  pub mode : Mode
  pub matchers : Option (List MatcherDict)
  pub created_at : ℕ

abbrev pub serialize_share : AlertShare → Team → SharePayload
serialize_share share team = record {
  id = share.id;
  owner_team_id = share.owner_team_id;
  target_team_id = share.target_team_id;
  team_slug = team.slug;
  team_name = team.name;
  mode = share.mode;
  matchers = share.matchers;
  created_at = share.created_at;
}

-- One row of the join of the shares with the teams.
abbrev pub joined_row : AlertShare → Option Team → List SharePayload
joined_row share none = []
joined_row share (some team) = serialize_share share team ∷ []

abbrev pub join_teams : Db → (AlertShare → ℕ) → List AlertShare → List SharePayload
join_teams db end [] = []
join_teams db end (s ∷ ss) = joined_row s (get_team db (end s)) ++ join_teams db end ss

-- GET /teams/{team_id}/shares
unfoldable pub list_outgoing_shares : ℕ → User → Exec (Answer (List SharePayload))
unfolding require_team_role get_team_or_404
list_outgoing_shares team_id user = do
  allowed ← require_team_role member team_id user
  team ← get_team_or_404 team_id
  (λ db.
      pure
        (quietly (
          join_teams db (λ s. s.target_team_id)
            (filter (λ s. s.owner_team_id == team_id) db.shares)))
        db)

-- GET /teams/{team_id}/shared-with-me
unfoldable pub list_incoming_shares : ℕ → User → Exec (Answer (List SharePayload))
unfolding require_team_role get_team_or_404
list_incoming_shares team_id user = do
  allowed ← require_team_role member team_id user
  team ← get_team_or_404 team_id
  (λ db.
      pure
        (quietly (
          join_teams db (λ s. s.owner_team_id)
            (filter (λ s. s.target_team_id == team_id) db.shares)))
        db)

-- UNIQUE (owner_team_id, target_team_id)
abbrev pub has_pair : ℕ → ℕ → AlertShare → Bool
has_pair owner_id target_id s = s.owner_team_id == owner_id && s.target_team_id == target_id

abbrev pub known_target : Option Team → Exec Team
known_target none = raise (http 422)
known_target (some team) = pure team

abbrev pub validate_matchers : Runtime → Option (List MatcherInput) → Exec (Unit {0})
validate_matchers rt matchers = demand (every (is_valid_matcher rt) (or_none matchers))

abbrev pub add_share : AlertShare → Db → Db
add_share share db = record db {
  shares = db.shares ++ share ∷ [];
  next_share_id = suc db.next_share_id;
}

abbrev pub set_share : ℕ → (AlertShare → AlertShare) → Db → Db
set_share id f db = record db { shares = update_where (λ s. s.id == id) f db.shares }

unfoldable pub update_mode : ℕ → Option Mode → Exec (Unit {0})
update_mode share_id none = pure tt
update_mode share_id (some mode) = modify (set_share share_id (λ s. record s { mode = mode }))

-- The share as it is after the update, with its target. The target is there by its foreign key.
abbrev pub with_target : AlertShare → Option Team → Exec (Answer SharePayload)
with_target share none = raise assertion
with_target share (some target) = pure (quietly (serialize_share share target))

abbrev pub answer_updated : Option AlertShare → Exec (Answer SharePayload)
answer_updated none = raise assertion
answer_updated (some share) = λ db. with_target share (get_team db share.target_team_id) db

abbrev pub remove_share : ℕ → Db → Db
remove_share id db = record db { shares = filter (λ s. not (s.id == id)) db.shares }

module _ (rt : Runtime) (now : ℕ) where
  abbrev pub new_share : ℕ → ShareCreate → User → Db → AlertShare
  new_share team_id body actor db = record {
    id = db.next_share_id;
    owner_team_id = team_id;
    target_team_id = body.target_team_id;
    mode = body.mode;
    matchers = matchers_to_json body.matchers;
    created_by = some actor.id;
    created_at = now;
  }

  -- The flush, which is rolled back when the unique constraint fails.
  unfoldable pub insert_share : ℕ → ShareCreate → User → Exec AlertShare
  insert_share team_id body actor db =
      if any (has_pair team_id body.target_team_id) db.shares
      then (raise (http 409)) db
      else (pure (new_share team_id body actor db)) (add_share (new_share team_id body actor db) db)

  -- POST /teams/{team_id}/shares
  unfoldable pub create_share : ℕ → ShareCreate → User → Exec (Answer SharePayload)
  unfolding require_team_role get_team_or_404 insert_share is_valid_matcher log str
  create_share team_id body actor = do
    allowed ← require_team_role owner team_id actor
    team ← get_team_or_404 team_id
    demand (not (body.target_team_id == team_id))
    target ← (λ db. known_target (get_team db body.target_team_id) db)
    validate_matchers rt body.matchers
    share ← insert_share team_id body actor
    log now (some actor.id) (some team_id) "share.create" "alert_share" (str share.id)
    pure (quietly (serialize_share share target))

  unfoldable pub update_matchers : ℕ → Option (Option (List MatcherInput)) → Exec (Unit {0})
  unfolding is_valid_matcher
  update_matchers share_id none = pure tt
  update_matchers share_id (some matchers) = do
    validate_matchers rt matchers
    modify (set_share share_id (λ s. record s { matchers = matchers_to_json matchers }))

  -- PUT /shares/{share_id}
  unfoldable pub update_share : ℕ → ShareUpdate → User → Exec (Answer SharePayload)
  unfolding require_team_role get_share_or_404 update_mode update_matchers log str
  update_share share_id body actor = do
    share ← get_share_or_404 share_id
    allowed ← require_team_role owner share.owner_team_id actor
    update_mode share.id body.mode
    update_matchers share.id body.matchers
    log now (some actor.id) (some share.owner_team_id) "share.update" "alert_share" (str share.id)
    (λ db. answer_updated (get_share db share.id) db)

  -- DELETE /shares/{share_id}
  unfoldable pub delete_share : ℕ → User → Exec (Answer (Unit {0}))
  unfolding require_team_role get_share_or_404 log str
  delete_share share_id actor = do
    share ← get_share_or_404 share_id
    allowed ← require_team_role owner share.owner_team_id actor
    log now (some actor.id) (some share.owner_team_id) "share.delete" "alert_share" (str share.id)
    modify (remove_share share.id)
    pure (quietly tt)
