-- ===== src/Models/Routing.antt =====
-- backend/app/models/routing.py: routing rules and their matchers.
use k8s_alert_manager.Prelude.{ℕ, String, Bool, true, false, Option, List}

pub data MatcherKind : Type 0 where
  include exclude : MatcherKind
  unknown : String → MatcherKind

unfoldable pub is_include : MatcherKind → Bool
is_include include = true
is_include _ = false

pub data Target : Type 0 where
  alertname label annotation : Target
  unknown : String → Target

pub record RoutingMatcher : Type 0 where
  pub kind : MatcherKind
  pub target : Target
  pub key : Option String
  pub pattern : String
  pub position : ℕ

pub data Action : Type 0 where
  notify suppress : Action
  unknown : String → Action

unfoldable pub is_suppress : Action → Bool
is_suppress suppress = true
is_suppress _ = false

unfoldable pub is_notify : Action → Bool
is_notify notify = true
is_notify _ = false

-- `channels` and `escalation_channels` are the channel ids of the two association tables.
pub record RoutingRule : Type 0 where
  pub id : ℕ
  pub team_id : ℕ
  pub name : String
  pub description : Option String
  pub action : Action
  pub enabled : Bool
  pub notify_on_firing : Bool
  pub notify_on_resolved : Bool
  pub include_shared : Bool
  pub escalation_enabled : Bool
  pub escalation_after_minutes : Option ℕ
  pub renotify_interval_minutes : Option ℕ
  pub severities : Option (List String)
  pub namespaces_include : Option (List String)
  pub namespaces_exclude : Option (List String)
  pub clusters : Option (List ℕ)
  pub template_id : Option ℕ
  pub matchers : List RoutingMatcher
  pub channels : List ℕ
  pub escalation_channels : List ℕ
