-- ===== src/TeamUseCase/Reads.antt =====
-- backend/internal/usecase/team/team.go: the reads `GetByID`, `GetMyTeam` and `GetTeamMembers`.
use ctfboard.Base.{ℕ, List}
use ctfboard.Entity.{User, Team}
use ctfboard.Store.Transaction.{Tx, pure, ◌>>=◌}
use ctfboard.Store.Users.{get_user_by_id, get_users_by_team_id}
use ctfboard.Store.Teams.{get_team_by_id}
use ctfboard.TeamUseCase.Membership.{require_team}

-- `GetByID`
abbrev pub get_by_id : ℕ → Tx Team
get_by_id k = get_team_by_id k

-- `GetMyTeam`
unfoldable pub get_my_team : ℕ → Tx (Team × List User)
get_my_team user_id = do
  user ← get_user_by_id user_id
  team_id ← require_team user
  team ← get_team_by_id team_id
  members ← get_users_by_team_id team_id
  pure (team, members)

-- `GetTeamMembers`
abbrev pub get_team_members : ℕ → Tx (List User)
get_team_members team_id = get_users_by_team_id team_id
