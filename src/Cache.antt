-- ===== src/Cache.antt =====
-- backend/pkg/cache: the scoreboards that Redis keeps for a while.
pub mod Boards
pub mod Bounded
mod Tests
