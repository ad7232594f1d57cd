-- ===== src/Models/Channel.antt =====
-- backend/app/models/channel.py: a team's notification channel and its storm control settings.
use k8s_alert_manager.Prelude.{ℕ, String, Bool, Option}

pub data DigestMode : Type 0 where
  off auto always : DigestMode
  unknown : String → DigestMode

pub record Channel : Type 0 where
  pub id : ℕ
  pub team_id : ℕ
  pub type : String
  pub config_encrypted : String
  pub enabled : Bool
  pub template_id : Option ℕ
  pub allow_cross_team_escalation : Bool
  pub rate_limit_per_hour : Option ℕ
  pub digest_mode : DigestMode
  pub digest_window_minutes : ℕ
  pub deleted_at : Option ℕ
