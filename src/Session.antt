-- ===== src/Session.antt =====
-- internal/session: blockers and routing.
pub mod Blockers
pub mod Targets
pub mod Routing
pub mod Configured
pub mod Services
pub mod Reroutes
pub mod ResolveOptions
pub mod Resolution
pub mod Adaptive
pub mod Preferences
pub mod Tasks
