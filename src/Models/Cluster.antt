-- ===== src/Models/Cluster.antt =====
-- backend/app/models/cluster.py and the team of backend/app/models/team.py.
use k8s_alert_manager.Prelude.{ℕ, String, Bool, true, false, Option}

pub data HeartbeatState : Type 0 where
  unknown ok missing : HeartbeatState

unfoldable pub is_ok : HeartbeatState → Bool
is_ok ok = true
is_ok _ = false

unfoldable pub is_missing : HeartbeatState → Bool
is_missing missing = true
is_missing _ = false

pub record Cluster : Type 0 where
  pub id : ℕ
  pub name : String
  pub display_name : String
  pub enabled : Bool
  pub grafana_url : Option String
  pub heartbeat_enabled : Bool
  pub heartbeat_alertname : String
  pub heartbeat_timeout_seconds : ℕ
  pub heartbeat_team_id : Option ℕ
  pub last_heartbeat_at : Option ℕ
  pub heartbeat_state : HeartbeatState

pub record Team : Type 0 where
  pub id : ℕ
  pub slug : String
  pub name : String
  pub description : Option String
