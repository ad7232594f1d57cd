-- ===== src/Api.antt =====
-- backend/app/api: the requests of the HTTP API on the database and the live feed. A user arrives
-- with each request; the text of an error's detail is left out.
pub mod Access
pub mod Reading
pub mod Payload
pub mod Alerts
pub mod Guarded
pub mod Owned
pub mod Routes
pub mod Shares
pub mod Teams
pub mod Members
pub mod Acked
pub mod History
pub mod Export
pub mod Order
pub mod Pages
pub mod Exported
pub mod Comments
use k8s_alert_manager.Prelude.{ℕ, suc, String, Option, none, some, List, [], ◌∷◌, ◌++◌, length}
use k8s_alert_manager.Models.Audit.{AuditLog}
use k8s_alert_manager.Models.Db.{Db}
use k8s_alert_manager.Exec.{Exec, Result, ok, err, raise, modify, pure}
use k8s_alert_manager.Feed.{HubEvent, Hub, publish}

-- audit.log; `created_at` is the column's default.
unfoldable pub log : ℕ → Option ℕ → Option ℕ → String → String → String → Exec (Unit {0})
log now user_id team_id action object_type object_ref = modify (λ db. record db {
  audit_logs =
      db.audit_logs
      ++ record {
        id = db.next_audit_id;
        user_id = user_id;
        team_id = team_id;
        action = action;
        object_type = object_type;
        object_ref = object_ref;
        created_at = now;
      }
        ∷ [];
  next_audit_id = suc db.next_audit_id;
})

-- What a handler answers, and the events that it publishes behind its commit.
abbrev pub Answer : Type 0 → Type 0
Answer A = A × List HubEvent

abbrev pub quietly : {A : Type 0} → A → Answer A
quietly a = (a, [])

-- publish_after_commit, for each event
unfoldable pub publish_all : List HubEvent → Hub → Hub
publish_all [] hub = hub
publish_all (e ∷ es) hub = publish_all es (publish e hub)

-- A request in a session of its own: a handler that raises is rolled back and publishes nothing.
abbrev pub concluded : {A : Type 0} → Db → Hub → Result (Answer A) × Db → Result A × Db × Hub
concluded db hub (ok (a, events), db') = (ok a, db', publish_all events hub)
concluded db hub (err e, db') = (err e, db, hub)

abbrev pub request : {A : Type 0} → Exec (Answer A) → Db → Hub → Result A × Db × Hub
request handler db hub = concluded db hub (handler db)
