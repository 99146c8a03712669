-- ===== src/Pier.antt =====
-- Researcher code on a pier: its grants, its bounds, its sandbox host, its artifact and the
-- operator's consent.
pub mod Actions
pub mod Capture
pub mod Host
pub mod Consent
pub mod Address
pub mod Artifact
pub mod Runner
mod Tests
