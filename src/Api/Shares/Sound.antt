-- ===== src/Api/Shares/Sound.antt =====
-- What the requests of backend/app/api/shares.py keep of the table of shares.
use k8s_alert_manager.Prelude.{ℕ, refl, not, Option, none, some, List, ◌==◌, arith}
use k8s_alert_manager.Text.{str}
use k8s_alert_manager.Runtime.{Runtime}
use k8s_alert_manager.Models.Share.{Mode, AlertShare}
use k8s_alert_manager.Models.Cluster.{Team}
use k8s_alert_manager.Models.User.{User, owner}
use k8s_alert_manager.Models.Db.{Db, get_share, get_team}
use k8s_alert_manager.Exec.{modify}
use k8s_alert_manager.Exec.Keeps.{Steps, Steps-pure, Steps-bind}
use k8s_alert_manager.Exec.Reads.{Same}
use k8s_alert_manager.Sharing.{compile_share_scope}
use k8s_alert_manager.Api.{log, quietly}
use k8s_alert_manager.Api.Access.{require_team_role, get_team_or_404}
use k8s_alert_manager.Api.Guarded.{or_404-Same, get_team_or_404-Same}
use k8s_alert_manager.Api.Owned.{role-Same}
use k8s_alert_manager.Api.Routes.Checks.{MatcherInput, or_none, every, is_valid_matcher}
use k8s_alert_manager.Api.Shares.{
  ShareCreate, ShareUpdate, serialize_share, get_share_or_404, matchers_to_json, has_pair,
  known_target, insert_share, create_share, update_mode, update_matchers, with_target,
  answer_updated, update_share, remove_share, delete_share,
}
use k8s_alert_manager.Api.Shares.Table.{
  IsWhole, SoundShares, whole_json, count-filter_le, filter_whole, Keeps, Keeps-preorder,
  Keeps-of_Same, demand-Keeps, log-Keeps, set_share-Keeps, insert_share-Keeps,
}

update_mode-Keeps : (rt : Runtime) (id : ℕ) (o : Option Mode) → Steps (Keeps rt) (update_mode id o)
unfolding update_mode compile_share_scope
update_mode-Keeps rt id none = Steps-pure (Keeps-preorder rt) tt
update_mode-Keeps rt id (some mode) =
    set_share-Keeps rt id (λ s. record s { mode = mode }) (λ o t s. refl) (λ s h. h)

update_matchers-Keeps :
    (rt : Runtime) (now id : ℕ) (o : Option (Option (List MatcherInput)))
    → Steps (Keeps rt) (update_matchers rt now id o)
unfolding update_matchers compile_share_scope
update_matchers-Keeps rt now id none = Steps-pure (Keeps-preorder rt) tt
update_matchers-Keeps rt now id (some matchers) =
    demand-Keeps rt (every (is_valid_matcher rt) (or_none matchers)) _ (λ valid.
      set_share-Keeps rt id (λ s. record s { matchers = matchers_to_json matchers }) (λ o t s. refl)
        (λ s h. (whole_json rt matchers valid, h.1)))

get_share_or_404-Same : (id : ℕ) → Steps Same (get_share_or_404 id)
unfolding get_share_or_404
get_share_or_404-Same id = record { at = λ db. (or_404-Same (get_share db id)).at db }

known_target-Same : (o : Option Team) → Steps Same (known_target o)
known_target-Same none = record { at = λ db. refl }
known_target-Same (some team) = record { at = λ db. refl }

with_target-Same : (s : AlertShare) (o : Option Team) → Steps Same (with_target s o)
with_target-Same s none = record { at = λ db. refl }
with_target-Same s (some team) = record { at = λ db. refl }

answer-Same : (o : Option AlertShare) → Steps Same (answer_updated o)
answer-Same none = record { at = λ db. refl }
answer-Same (some s) = record {
  at = λ db. (with_target-Same s (get_team db s.target_team_id)).at db;
}

remove_share-Keeps : (rt : Runtime) (id : ℕ) → Steps (Keeps rt) (modify (remove_share id))
remove_share-Keeps rt id = record {
  at = λ db s. record {
    at_pair = λ o t.
        ground
          (arith, s.at_pair o t, count-filter_le (has_pair o t) (λ r. not (r.id == id)) db.shares);
    whole = filter_whole (IsWhole rt) (λ r. not (r.id == id)) db.shares s.whole;
  };
}

module _ (rt : Runtime) (now : ℕ) (actor : User) where
  create_share-Keeps :
      (team_id : ℕ) (body : ShareCreate) → Steps (Keeps rt) (create_share rt now team_id body actor)
  unfolding create_share
  create_share-Keeps team_id body =
      Steps-bind (Keeps-preorder rt) (require_team_role owner team_id actor) _
        (Keeps-of_Same rt _ (role-Same owner team_id actor))
        (λ allowed.
          Steps-bind (Keeps-preorder rt) (get_team_or_404 team_id) _
            (Keeps-of_Same rt _ (get_team_or_404-Same team_id))
            (λ team. demand-Keeps rt (not (body.target_team_id == team_id)) _ (λ other.
              Steps-bind (Keeps-preorder rt)
                (λ db. known_target (get_team db body.target_team_id) db) _
                (Keeps-of_Same rt _ (record {
                  at = λ db. (known_target-Same (get_team db body.target_team_id)).at db;
                }))
                (λ target.
                  demand-Keeps rt (every (is_valid_matcher rt) (or_none body.matchers)) _ (λ valid.
                    Steps-bind (Keeps-preorder rt) (insert_share rt now team_id body actor) _
                      (insert_share-Keeps rt now team_id body actor valid (ground (arith, other)))
                      (λ share.
                        Steps-bind (Keeps-preorder rt)
                          (log now (some actor.id) (some team_id) "share.create" "alert_share"
                            (str share.id))
                          _
                          (log-Keeps rt now (some actor.id) (some team_id) "share.create"
                            "alert_share" (str share.id))
                          (λ u.
                            Steps-pure (Keeps-preorder rt)
                              (quietly (serialize_share share target)))))))))

  update_share-Keeps :
      (share_id : ℕ) (body : ShareUpdate)
      → Steps (Keeps rt) (update_share rt now share_id body actor)
  unfolding update_share
  update_share-Keeps share_id body =
      Steps-bind (Keeps-preorder rt) (get_share_or_404 share_id) _
        (Keeps-of_Same rt _ (get_share_or_404-Same share_id))
        (λ share.
          Steps-bind (Keeps-preorder rt) (require_team_role owner share.owner_team_id actor) _
            (Keeps-of_Same rt _ (role-Same owner share.owner_team_id actor))
            (λ allowed.
              Steps-bind (Keeps-preorder rt) (update_mode share.id body.mode) _
                (update_mode-Keeps rt share.id body.mode)
                (λ u.
                  Steps-bind (Keeps-preorder rt) (update_matchers rt now share.id body.matchers) _
                    (update_matchers-Keeps rt now share.id body.matchers)
                    (λ v.
                      Steps-bind (Keeps-preorder rt)
                        (log now (some actor.id) (some share.owner_team_id) "share.update"
                          "alert_share" (str share.id))
                        _
                        (log-Keeps rt now (some actor.id) (some share.owner_team_id) "share.update"
                          "alert_share" (str share.id))
                        (λ w.
                          Keeps-of_Same rt (λ db. answer_updated (get_share db share.id) db)
                            (record { at = λ db. (answer-Same (get_share db share.id)).at db }))))))

  delete_share-Keeps : (share_id : ℕ) → Steps (Keeps rt) (delete_share rt now share_id actor)
  unfolding delete_share
  delete_share-Keeps share_id =
      Steps-bind (Keeps-preorder rt) (get_share_or_404 share_id) _
        (Keeps-of_Same rt _ (get_share_or_404-Same share_id))
        (λ share.
          Steps-bind (Keeps-preorder rt) (require_team_role owner share.owner_team_id actor) _
            (Keeps-of_Same rt _ (role-Same owner share.owner_team_id actor))
            (λ allowed.
              Steps-bind (Keeps-preorder rt)
                (log now (some actor.id) (some share.owner_team_id) "share.delete" "alert_share"
                  (str share.id))
                _
                (log-Keeps rt now (some actor.id) (some share.owner_team_id) "share.delete"
                  "alert_share" (str share.id))
                (λ u.
                  Steps-bind (Keeps-preorder rt) (modify (remove_share share.id)) _
                    (remove_share-Keeps rt share.id)
                    (λ v. Steps-pure (Keeps-preorder rt) (quietly tt)))))

-- The requests that change the shares.
pub data ShareRequest : Type 0 where
  create : (team_id : ℕ) → ShareCreate → ShareRequest
  update : (share_id : ℕ) → ShareUpdate → ShareRequest
  delete : (share_id : ℕ) → ShareRequest

module _ (rt : Runtime) (now : ℕ) where
  -- The database behind a request, whether it is answered or raises.
  abbrev pub requested : ShareRequest → User → Db → Db
  requested (create team_id body) actor db = (create_share rt now team_id body actor db).1
  requested (update share_id body) actor db = (update_share rt now share_id body actor db).1
  requested (delete share_id) actor db = (delete_share rt now share_id actor db).1

  -- Each request on shares, answered or refused, keeps these: no two shares have the same owner and
  -- target, none is of a team with itself, and none has a broken list of matchers, which would deny every
  -- alert.
  pub requested-SoundShares :
      (r : ShareRequest) (actor : User) (db : Db)
      → SoundShares rt db
      → SoundShares rt (requested r actor db)
  requested-SoundShares (create team_id body) actor db s =
      (create_share-Keeps rt now actor team_id body).at db s
  requested-SoundShares (update share_id body) actor db s =
      (update_share-Keeps rt now actor share_id body).at db s
  requested-SoundShares (delete share_id) actor db s =
      (delete_share-Keeps rt now actor share_id).at db s
