-- ===== src/Routing.antt =====
-- internal/routing: which processes are games, and what is done with their traffic.
pub mod Match
pub mod Engine
