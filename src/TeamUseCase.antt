-- ===== src/TeamUseCase.antt =====
-- backend/internal/usecase/team/team.go: creating, joining, leaving and disbanding teams.
pub mod Cleanup
pub mod Create
pub mod Membership
pub mod Captain
pub mod Freed
pub mod Validity
pub mod History
pub mod Outcomes
pub mod Reset
pub mod Trial
pub mod Authority
pub mod Reads
pub mod Moderation
pub mod Banned
mod Tests
