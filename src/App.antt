-- ===== src/App.antt =====
-- internal/app: the client's and the server's handling of packets.
pub mod Writeback
