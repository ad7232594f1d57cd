-- ===== src/Models/Audit.antt =====
-- backend/app/models/audit.py, comment.py and settings.py. The `detail` of an audit row is left out.
use k8s_alert_manager.Prelude.{ℕ, String, Option}

pub record AuditLog : Type 0 where
  pub id : ℕ
  pub user_id : Option ℕ
  pub team_id : Option ℕ
  pub action : String
  pub object_type : String
  pub object_ref : String
  pub created_at : ℕ

pub record AlertComment : Type 0 where
  pub id : ℕ
  pub alert_event_id : ℕ
  pub user_id : Option ℕ
  pub body : String
  pub created_at : ℕ

pub record AppSetting : Type 0 where
  pub key : String
  pub value : String
