-- ===== src/ChallengeUseCase.antt =====
-- backend/internal/usecase/challenge/challenge.go: flags, their submission, and what a solve changes.
pub mod Flags
pub mod Regex
pub mod Submit
pub mod Delete
pub mod Removed
pub mod Solved
pub mod Verdict
mod Tests
