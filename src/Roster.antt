-- ===== src/Roster.antt =====
-- backend/internal/usecase/team, seen as a roster: who is in which team, and who leads it. This is
-- the abstract state behind the tables `users` and `teams`, and the invariant on it.
pub mod Users
pub mod Teams
pub mod Invariant
pub mod Release
