-- ===== src/Api/Routes/Checks.antt =====
-- What a rule must satisfy before backend/app/api/routes.py saves it.
use k8s_alert_manager.Prelude.{
  ℕ, String, Bool, true, false, not, ◌&&◌, ◌||◌, Option, none, some, List, [], ◌∷◌, filter, find,
  any, str_elem, str_eq, leb, ◌==◌, is_some, is_empty, if◌then◌else◌,
}
use k8s_alert_manager.Text.{text_length}
use k8s_alert_manager.Runtime.{Runtime}
use k8s_alert_manager.Models.Routing.{MatcherKind, Target, Action, is_suppress}
use k8s_alert_manager.Models.Channel.{Channel}
use k8s_alert_manager.Models.Template.{MessageTemplate}
use k8s_alert_manager.Models.Db.{Db, get_template, get_cluster}
use k8s_alert_manager.Exec.{Exec, http, pure, raise, ◌>>◌}

abbrev pub max_pattern_length : ℕ
max_pattern_length = 512

abbrev pub valid_severities : List String
valid_severities = "critical" ∷ "warning" ∷ "info" ∷ "none" ∷ []

abbrev pub alert_template_kind : String
alert_template_kind = "alert"

pub record MatcherInput : Type 0 where
  pub kind : MatcherKind
  pub target : Target
  pub key : Option String
  pub pattern : String

-- The body of a request. Minutes are natural numbers: the code refuses a negative number wherever it
-- tests one.
pub record RouteWrite : Type 0 where
  pub name : String
  pub description : Option String
  pub action : Action
  pub enabled : Bool
  pub notify_on_firing : Bool
  pub notify_on_resolved : Bool
  pub include_shared : Bool
  pub severities : Option (List String)
  pub namespaces_include : Option (List String)
  pub namespaces_exclude : Option (List String)
  pub clusters : Option (List ℕ)
  pub channel_ids : List ℕ
  pub matchers : List MatcherInput
  pub template_id : Option ℕ
  pub escalation_enabled : Bool
  pub escalation_after_minutes : Option ℕ
  pub escalation_channel_ids : List ℕ
  pub renotify_interval_minutes : Option ℕ

-- `xs or []`
abbrev pub or_none {ℓ} : {A : Type ℓ} → Option (List A) → List A
or_none none = []
or_none (some xs) = xs

abbrev pub every {ℓ} : {A : Type ℓ} → (A → Bool) → List A → Bool
every p xs = not (any (λ x. not (p x)) xs)

-- Each check raises the same status.
abbrev pub demand : Bool → Exec (Unit {0})
demand fulfilled = if fulfilled then pure tt else raise (http 422)

abbrev pub needs_key : Target → Bool
needs_key Target.label = true
needs_key Target.annotation = true
needs_key _ = false

-- `not matcher.key`
abbrev pub lacks_key : Option String → Bool
lacks_key none = true
lacks_key (some key) = str_eq key ""

-- `not n or n < 1`
abbrev pub is_positive : Option ℕ → Bool
is_positive none = false
is_positive (some n) = leb 1 n

abbrev pub none_or_positive : Option ℕ → Bool
none_or_positive none = true
none_or_positive (some n) = leb 1 n

unfoldable pub is_valid_escalation : RouteWrite → Bool
unfolding is_suppress
is_valid_escalation body =
    if is_suppress body.action
    then not (
        body.escalation_enabled
        || not (is_empty body.escalation_channel_ids)
        || is_positive body.escalation_after_minutes)
      && not (is_some body.renotify_interval_minutes)
    else (not body.escalation_enabled
        || (is_positive body.escalation_after_minutes
            && not (is_empty body.escalation_channel_ids)))
      && none_or_positive body.renotify_interval_minutes

module _ (rt : Runtime) where
  unfoldable pub is_valid_pattern : String → Bool
  unfolding text_length
  is_valid_pattern pattern = leb (text_length pattern) max_pattern_length && rt.compiles pattern

  unfoldable pub is_valid_matcher : MatcherInput → Bool
  unfolding is_valid_pattern
  is_valid_matcher m = is_valid_pattern m.pattern && not (needs_key m.target && lacks_key m.key)

  unfoldable pub are_valid_severities : Option (List String) → Bool
  are_valid_severities severities =
      every (λ s. str_elem (rt.lower s) valid_severities) (or_none severities)

  unfoldable pub validate_body : RouteWrite → Exec (Unit {0})
  unfolding are_valid_severities is_valid_pattern is_valid_matcher is_valid_escalation
  validate_body body = do
    demand (are_valid_severities body.severities)
    demand (every is_valid_pattern (or_none body.namespaces_include))
    demand (every is_valid_pattern (or_none body.namespaces_exclude))
    demand (every is_valid_matcher body.matchers)
    demand (is_valid_escalation body)

unfoldable pub validate_clusters_exist : Option (List ℕ) → Exec (Unit {0})
validate_clusters_exist cluster_ids db =
    demand (every (λ id. is_some (get_cluster db id)) (or_none cluster_ids)) db

abbrev pub is_own_template : ℕ → Option MessageTemplate → Bool
is_own_template team_id none = false
is_own_template team_id (some t) = t.team_id == team_id && str_eq t.kind alert_template_kind

unfoldable pub validate_template : ℕ → Option ℕ → Exec (Unit {0})
validate_template team_id none = pure tt
validate_template team_id (some template_id) =
    λ db. demand (is_own_template team_id (get_template db template_id)) db

-- Channel.id.in_(...), Channel.deleted_at.is_(None)
abbrev pub live_channel : Db → ℕ → Option Channel
live_channel db id = find (λ c. c.id == id && not (is_some c.deleted_at)) db.channels

-- list(dict.fromkeys(ids))
abbrev pub unique : List ℕ → List ℕ
unique [] = []
unique (id ∷ ids) = id ∷ filter (λ n. not (n == id)) (unique ids)

abbrev pub is_own : ℕ → Option Channel → Bool
is_own team_id none = false
is_own team_id (some c) = c.team_id == team_id

-- The channels of a rule, by their ids: none for a suppress rule, some of the team's own otherwise.
unfoldable pub resolve_channels : ℕ → Action → List ℕ → Exec (List ℕ)
unfolding is_suppress
resolve_channels team_id action channel_ids =
    if is_suppress action then (do demand (is_empty channel_ids); pure []) else (do
      demand (not (is_empty channel_ids))
      (λ db. demand (every (λ id. is_own team_id (live_channel db id)) (unique channel_ids)) db)
      pure (unique channel_ids))

abbrev pub may_escalate_to : ℕ → Option Channel → Bool
may_escalate_to team_id none = false
may_escalate_to team_id (some c) = c.team_id == team_id || c.allow_cross_team_escalation

-- Another team's channel is allowed with that team's consent.
unfoldable pub resolve_escalation_channels : ℕ → List ℕ → Exec (List ℕ)
resolve_escalation_channels team_id channel_ids = do
  (λ db.
      demand (every (λ id. may_escalate_to team_id (live_channel db id)) (unique channel_ids)) db)
  pure (unique channel_ids)
