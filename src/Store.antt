-- ===== src/Store.antt =====
-- The database behind the repositories of backend/internal/repo/persistent, and its transactions.
-- A table is the list of its rows. A request reads and writes it in one step: the row locks that the
-- code takes are what makes a transaction such a step.
pub mod Transaction
pub mod Statement
pub mod Accounts
pub mod ApiTokens
pub mod Fields
pub mod Configs
pub mod Submissions
pub mod Comments
pub mod Brackets
pub mod Logic
pub mod Users
pub mod Hints
pub mod Teams
pub mod Challenges
