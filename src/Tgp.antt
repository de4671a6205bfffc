-- ===== src/Tgp.antt =====
-- internal/tgp: the Tachyon game protocol.
pub mod Types
pub mod Wire
pub mod Dedup
pub mod Fec
pub mod Pacer
pub mod Path
pub mod Tunnel
pub mod Session
