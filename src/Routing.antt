-- ===== src/Routing.antt =====
-- backend/app/services/routing.py: rules against events.
pub mod Compile
pub mod Compiled
pub mod Evaluate
pub mod Admits
pub mod Matched
pub mod Gate
pub mod Preview
pub mod Previewed
