-- ===== src/Tgp/Fec.antt =====
-- internal/tgp/fec.go: forward error correction. `Frame` is the framing of a payload in a shard and
-- the checks on the shard counts, `Coder` the Reed-Solomon coder, `Buffer` the receive buffer, and
-- `Adaptive` the controller of fec_adaptive.go.
pub mod Frame
pub mod Coder
pub mod Log
pub mod Buffer
pub mod Adaptive
mod Tests
