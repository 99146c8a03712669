-- ===== src/Lanes.antt =====
-- SaucepanServer/task-server/shared/lanes: planned and interrupt assignment.
pub mod Classify
pub mod Planner
pub mod Roster
mod Tests
