-- ===== src/Guard.antt =====
-- backend/internal/usecase/competition/guard.go: what the competition's settings let teams do.
use ctfboard.Base.{not}
use ctfboard.Entity.Errors.{competition_not_found, roster_frozen, solo_mode_not_allowed}
use ctfboard.Entity.Competitions.{Competition, allows_solo, allows_teams}
use ctfboard.Store.Transaction.{Tx, query, fail_if, pure, ◌>>=◌, ◌>>◌}

-- `CompetitionRepository.Get`
unfoldable pub get_competition : Tx Competition
get_competition = query (λ db. db.competition) competition_not_found

unfoldable pub require_team_switch : Tx Competition
unfolding get_competition
require_team_switch = do
  comp ← get_competition
  fail_if (not comp.allow_team_switch) roster_frozen
  pure comp

unfoldable pub require_team_switch_and_teams_mode : Tx Competition
unfolding require_team_switch
require_team_switch_and_teams_mode = do
  comp ← require_team_switch
  fail_if (not (allows_teams comp.mode)) solo_mode_not_allowed
  pure comp

unfoldable pub require_team_switch_and_solo_mode : Tx Competition
unfolding require_team_switch
require_team_switch_and_solo_mode = do
  comp ← require_team_switch
  fail_if (not (allows_solo comp.mode)) solo_mode_not_allowed
  pure comp
