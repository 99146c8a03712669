-- ===== src/Assign.antt =====
-- Task assignment in the orchestrator: SaucepanServer/task-server/cmd/orchestrator.
pub mod Lease
pub mod Store
pub mod Reclaim
pub mod Claim
pub mod Once
mod Tests
