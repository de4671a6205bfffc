-- ===== src/Pidtrack.antt =====
-- internal/pidtrack: which process owns a flow.
pub mod Flow
pub mod Tracker
