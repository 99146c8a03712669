-- ===== src/Sky.antt =====
-- SaucepanServer/task-server/shared/slew.go, safety_match.go, obstruction.go and psf.go: where a
-- target stands, and whether a mount may point there.
pub mod Slew
pub mod Obstruction
pub mod Safety
