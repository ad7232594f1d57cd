-- ===== src/Models/Template.antt =====
-- backend/app/models/template.py: a team's message template.
use k8s_alert_manager.Prelude.{ℕ, String, Option}

pub record MessageTemplate : Type 0 where
  pub id : ℕ
  pub team_id : ℕ
  pub name : String
  pub description : Option String
  pub kind : String
  pub title_template : String
  pub body_template : String
  pub body_html_template : Option String
