-- ===== src/Worker.antt =====
-- backend/app/worker: the outbox worker and the scheduler.
pub mod Claim
pub mod Attempt
pub mod Deliver
pub mod Settled
pub mod Leases
pub mod Retry
pub mod Due
pub mod Touched
pub mod Actions
pub mod Handlers
pub mod Digest
pub mod Dispatch
pub mod Dispatched
pub mod Reclaim
pub mod Flush
pub mod Consent
pub mod Reach
pub mod Cycles
pub mod Accepted
