-- ===== src/Examples.antt =====
-- Runs of the model of backend/app at concrete inputs, and the theorems at those inputs.
mod Samples
mod Matching
mod Outbox
mod Reach
mod Timers
mod Webhook
mod Live
mod Requests
