-- ===== src/Api/Shares/Table.antt =====
-- A sound table of shares, and the changes that keep it so, for backend/app/api/shares.py.
use k8s_alert_manager.Prelude.{
  ℕ, String, ◌≤◌, ◌≡◌, refl, sym, subst, inl, inr, Bool, true, false, Option, none, some, List, [],
  ◌∷◌, ◌++◌, map, filter, any, length, count, count-append, count-zero_of_any, count-update_where,
  All, All-append, All-update_where, ◌==◌, ==_iff, Bool-cases, arith,
}
use k8s_alert_manager.Runtime.{Runtime}
use k8s_alert_manager.Models.Share.{AlertShare}
use k8s_alert_manager.Models.User.{User}
use k8s_alert_manager.Models.Db.{Db}
use k8s_alert_manager.Exec.{Exec, modify, ◌>>=◌}
use k8s_alert_manager.Exec.Keeps.{Steps, IsPreorder}
use k8s_alert_manager.Exec.Reads.{Same}
use k8s_alert_manager.Sharing.{compile_scope, compile_share_scope}
use k8s_alert_manager.Sharing.Laws.{usable}
use k8s_alert_manager.Sharing.Scope.{denies_iff}
use k8s_alert_manager.Api.{log}
use k8s_alert_manager.Api.Routes.{dumped}
use k8s_alert_manager.Api.Routes.Checks.{
  MatcherInput, or_none, every, demand, is_valid_pattern, is_valid_matcher,
}
use k8s_alert_manager.Api.Shares.{
  ShareCreate, matchers_to_json, has_pair, new_share, insert_share, set_share,
}

-- A share whose stored list is not broken, with a team other than its own.
abbrev pub IsWhole : Runtime → AlertShare → Type 0
IsWhole rt s =
    ((compile_share_scope rt s).always_denies ≡ false)
    × ((s.owner_team_id == s.target_team_id) ≡ false)

pub record SoundShares (rt : Runtime) (db : Db) : Type 0 where
  pub at_pair : (owner_id target_id : ℕ) → count (has_pair owner_id target_id) db.shares ≤ 1
  pub whole : All (IsWhole rt) db.shares

module _ (rt : Runtime) where
  usable-dumped :
      (ms : List MatcherInput)
      → every (is_valid_matcher rt) ms ≡ true
      → count (usable rt) (map dumped ms) ≡ length (map dumped ms)
  unfolding usable is_valid_matcher is_valid_pattern
  usable-dumped [] h = refl
  usable-dumped (m ∷ ms) h = ground (arith, h, usable-dumped ms (ground (arith, h)))

  pub whole_json :
      (o : Option (List MatcherInput))
      → every (is_valid_matcher rt) (or_none o) ≡ true
      → (compile_scope rt (matchers_to_json o)).always_denies ≡ false
  whole_json none h = refl
  whole_json (some []) h = refl
  whole_json (some (m ∷ ms)) h = (denies_iff rt (map dumped (m ∷ ms))).1 (usable-dumped (m ∷ ms) h)

pair_append :
    (rows : List AlertShare) (r : AlertShare)
    → ((o t : ℕ) → count (has_pair o t) rows ≤ 1)
    → any (has_pair r.owner_team_id r.target_team_id) rows ≡ false
    → (o t : ℕ) → count (has_pair o t) (rows ++ r ∷ []) ≤ 1
pair_append rows r u free o t = elim (Bool-cases (has_pair o t r)) [
  | inr other ↦ ground (arith, count-append (has_pair o t) rows (r ∷ []), u o t)
  | inl same ↦
      let owner_same : r.owner_team_id ≡ o = (==_iff r.owner_team_id o).0 (ground (arith, same)) in
      let target_same : r.target_team_id ≡ t =
        (==_iff r.target_team_id t).0 (ground (arith, same)) in
      let none_there : count (has_pair o t) rows ≡ 0 =
        rw (← owner_same, ← target_same)
          (count-zero_of_any (has_pair r.owner_team_id r.target_team_id) rows free) in
      ground (arith, count-append (has_pair o t) rows (r ∷ []), none_there)
]

pub count-filter_le :
    (q p : AlertShare → Bool) (xs : List AlertShare) → count q (filter p xs) ≤ count q xs
count-filter_le q p [] = omega arith
count-filter_le q p (x ∷ xs) = elim (Bool-cases (p x)) [
  | inl e ↦ rw e (ground (arith, count-filter_le q p xs))
  | inr e ↦ rw e (ground (arith, count-filter_le q p xs))
]

pub filter_whole :
    (P : AlertShare → Type 0) (p : AlertShare → Bool) (xs : List AlertShare)
    → All P xs
    → All P (filter p xs)
filter_whole P p [] h = tt
filter_whole P p (x ∷ xs) h = elim (Bool-cases (p x)) [
  | inl e ↦ rw e (h.0, filter_whole P p xs h.1)
  | inr e ↦ rw e (filter_whole P p xs h.1)
]

module _ (rt : Runtime) where
  abbrev pub Keeps : Db → Db → Type 0
  Keeps db db' = SoundShares rt db → SoundShares rt db'

  pub Keeps-preorder : IsPreorder Keeps
  Keeps-preorder = record { same = λ db s. s; then_ = λ a b c f g s. g (f s) }

  pub Keeps-of_Same : {A : Type 0} (m : Exec A) → Steps Same m → Steps Keeps m
  Keeps-of_Same m h = record { at = λ db s. subst (SoundShares rt) (sym (h.at db)) s }

  pub demand-Keeps :
      {A : Type 0} (b : Bool) (k : Unit {0} → Exec A)
      → (b ≡ true → Steps Keeps (k tt))
      → Steps Keeps (demand b >>= k)
  demand-Keeps true k h = record { at = λ db s. (h refl).at db s }
  demand-Keeps false k h = record { at = λ db s. s }

  pub log-Keeps :
      (now : ℕ) (user team : Option ℕ) (action type ref : String)
      → Steps Keeps (log now user team action type ref)
  unfolding log
  log-Keeps now user team action type ref = record {
    at = λ db s. record { at_pair = s.at_pair; whole = s.whole };
  }

  pub set_share-Keeps :
      (id : ℕ) (f : AlertShare → AlertShare)
      → ((o t : ℕ) (s : AlertShare) → has_pair o t (f s) ≡ has_pair o t s)
      → ((s : AlertShare) → IsWhole rt s → IsWhole rt (f s))
      → Steps Keeps (modify (set_share id f))
  set_share-Keeps id f same kept = record {
    at = λ db s. record {
      at_pair = λ o t. ground (
        arith,
        s.at_pair o t,
        count-update_where (has_pair o t) (λ r. r.id == id) f db.shares (same o t),
      );
      whole =
          All-update_where (IsWhole rt) (IsWhole rt) (λ r. r.id == id) f db.shares
            (λ r h. elim (Bool-cases (r.id == id)) [ inl e ↦ rw e (kept r h) | inr e ↦ rw e h ])
            s.whole;
    };
  }

module _ (rt : Runtime) (now : ℕ) where
  pub insert_share-Keeps :
      (team_id : ℕ) (body : ShareCreate) (actor : User)
      → every (is_valid_matcher rt) (or_none body.matchers) ≡ true
      → (team_id == body.target_team_id) ≡ false
      → Steps (Keeps rt) (insert_share rt now team_id body actor)
  unfolding insert_share compile_share_scope
  insert_share-Keeps team_id body actor valid other = record {
    at = λ db s. elim (Bool-cases (any (has_pair team_id body.target_team_id) db.shares)) [
      | inl there ↦ rw there s
      | inr free ↦ rw free (record {
        at_pair = pair_append db.shares (new_share rt now team_id body actor db) s.at_pair free;
        whole =
            All-append (IsWhole rt) db.shares (new_share rt now team_id body actor db ∷ []) s.whole
              ((whole_json rt body.matchers valid, other), tt);
      })
    ];
  }
