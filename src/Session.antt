-- ===== src/Session.antt =====
-- src/session.rs: `Session`. Its children model the shared data, the identity and its lifecycle.
pub mod Revision
pub mod Tracking
pub mod Overlap
pub mod State
pub mod Identity
pub mod Cookies
pub mod Persist
pub mod Actions
pub mod Loaded
pub mod Rotation
pub mod Fresh
pub mod Progress
