-- ===== src/Models/Alert.antt =====
-- backend/app/models/alert.py and the statuses that an alert event takes.
use k8s_alert_manager.Prelude.{ℕ, String, Bool, true, false, Option, List}

-- The `status` column holds whatever Alertmanager sent; the code tests it for two values.
pub data EventStatus : Type 0 where
  firing resolved : EventStatus
  unknown : String → EventStatus

unfoldable pub is_firing : EventStatus → Bool
is_firing firing = true
is_firing _ = false

unfoldable pub is_resolved : EventStatus → Bool
is_resolved resolved = true
is_resolved _ = false

abbrev pub Labels : Type 0
Labels = List (String × String)

-- One episode of an alert; its identity is (cluster_id, fingerprint, starts_at).
pub record AlertEvent : Type 0 where
  pub id : ℕ
  pub cluster_id : ℕ
  pub cluster_name : String
  pub fingerprint : String
  pub status : EventStatus
  pub alertname : String
  pub severity : Option String
  pub namespace : Option String
  pub labels : Labels
  pub annotations : Labels
  pub team_id : Option ℕ
  pub starts_at : ℕ
  pub ends_at : Option ℕ
  pub generator_url : Option String
  pub first_received_at : ℕ
  pub last_received_at : ℕ
  pub receive_count : ℕ
  pub suppressed_by_rule_id : Option ℕ
  pub acknowledged_at : Option ℕ
  pub acknowledged_by : Option ℕ
  pub assignee_user_id : Option ℕ
  pub is_test : Bool
