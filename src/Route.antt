-- ===== src/Route.antt =====
-- `route_event` of backend/app/services/routing.py and what it calls, with `cancel_pending` of
-- backend/app/services/scheduled_actions.py and `resolve_grafana_url` of
-- backend/app/services/grafana.py.
pub mod Notification
pub mod Owner
pub mod Event
pub mod Collected
pub mod Covered
pub mod Growth
pub mod Recipients
pub mod Steps
pub mod Frame
pub mod Quiet
pub mod Once
pub mod Reaches
pub mod Notified
pub mod Repeats
pub mod Timers
