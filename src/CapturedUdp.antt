-- ===== src/CapturedUdp.antt =====
-- internal/capturedudp: the boundary between a capture helper and the core.
pub mod Types
pub mod Registry
