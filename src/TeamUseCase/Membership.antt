-- ===== src/TeamUseCase/Membership.antt =====
-- backend/internal/usecase/team/team.go: `Join`, `Leave`, `KickMember`.
use ctfboard.Base.{ℕ, Bool, none, some, List, ◌==◌, leb, length}
use ctfboard.Entity.{User, Team, no_details, joined, left}
use ctfboard.Entity.Errors.{team_full, team_not_found, cannot_leave_as_only_member, not_captain}
use ctfboard.Guard.{require_team_switch}
use ctfboard.Store.Transaction.{Db, Env, Result, Tx, pure, fail_if, query, ◌>>=◌, ◌>>◌}
use ctfboard.Store.Users.{
  lock_user_tx, get_user_by_id, get_users_by_team_id, update_user_team_id_tx,
}
use ctfboard.Store.Teams.{
  get_team_by_id, get_team_by_invite_token_tx, lock_team_tx, create_team_audit_log_tx,
}
use ctfboard.TeamUseCase.Cleanup.{cleanup_if_in_team, guarded}

unfoldable pub join_tx : Env → ℕ → ℕ → ℕ → Bool → Tx Team
join_tx env max_team_size invite_token user_id confirm_reset = do
  lock_user_tx user_id
  team ← get_team_by_invite_token_tx invite_token
  lock_team_tx team.id
  members ← get_users_by_team_id team.id
  fail_if (leb max_team_size (length members)) team_full
  user ← get_user_by_id user_id
  cleanup_if_in_team env user user_id confirm_reset
  update_user_team_id_tx user_id (some team.id)
  create_team_audit_log_tx env team.id user_id joined no_details 2
  pure team

-- `Join`; `max_team_size` is the use case's field, `DefaultMaxTeamSize` unless configured.
unfoldable pub join : Env → ℕ → ℕ → ℕ → Bool → Db → Result Team × Db
join env max_team_size invite_token user_id confirm_reset =
    guarded env require_team_switch (join_tx env max_team_size invite_token user_id confirm_reset)

abbrev pub default_max_team_size : ℕ
default_max_team_size = 10

-- `if user.TeamID == nil { return ErrTeamNotFound }`
abbrev pub require_team : User → Tx ℕ
require_team user = query (λ _. user.team_id) team_not_found

unfoldable pub leave_prepare : ℕ → Tx (User × Team × List User)
leave_prepare user_id = do
  lock_user_tx user_id
  user ← get_user_by_id user_id
  team_id ← require_team user
  lock_team_tx team_id
  team ← get_team_by_id team_id
  members ← get_users_by_team_id team_id
  pure (user, team, members)

unfoldable pub leave_validate : User → Team → List User → Tx (Unit {0})
leave_validate user team members = do
  fail_if (length members == 1) cannot_leave_as_only_member
  fail_if (team.captain_id == user.id) not_captain

unfoldable pub leave_execute : Env → ℕ → Team → Tx (Unit {0})
leave_execute env user_id team = do
  update_user_team_id_tx user_id none
  create_team_audit_log_tx env team.id user_id left no_details 2

unfoldable pub leave_tx : Env → ℕ → Tx (Unit {0})
unfolding leave_prepare leave_validate leave_execute
leave_tx env user_id = do
  (user, team, members) ← leave_prepare user_id
  leave_validate user team members
  leave_execute env user_id team

-- `Leave`
unfoldable pub leave : Env → ℕ → Db → Result (Unit {0}) × Db
leave env user_id = guarded env require_team_switch (leave_tx env user_id)
