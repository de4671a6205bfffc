-- ===== src/Pipeline.antt =====
-- internal/pipeline: from a captured packet to a decision.
pub mod Packet
pub mod Router
pub mod Run
mod Tests
