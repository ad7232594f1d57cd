-- ===== src/Models/Share.antt =====
-- backend/app/models/share.py: a cross-team sharing grant.
use k8s_alert_manager.Prelude.{ℕ, String, Bool, true, false, Option, List}
use k8s_alert_manager.Models.Routing.{MatcherKind, Target}

pub data Mode : Type 0 where
  view view_notify : Mode
  unknown : String → Mode

unfoldable pub is_view_notify : Mode → Bool
is_view_notify view_notify = true
is_view_notify _ = false

-- One dict of the stored JSON list, with the keys that `.get` may miss.
pub record MatcherDict : Type 0 where
  pub kind : Option MatcherKind
  pub target : Option Target
  pub key : Option String
  pub pattern : Option String

pub record AlertShare : Type 0 where
  pub id : ℕ
  pub owner_team_id : ℕ
  pub target_team_id : ℕ
  pub mode : Mode
  pub matchers : Option (List MatcherDict)
  pub created_by : Option ℕ
  pub created_at : ℕ
