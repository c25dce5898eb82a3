-- ===== src/TeamUseCase/Trial.antt =====
-- What `TryCreate` does before it is confirmed.
use ctfboard.Base.{true, ℕ, ◌≡◌, Bool, none, some, String, arith}
use ctfboard.Base.Int.{pos}
use ctfboard.Store.Transaction.{Db, Env, ok, run_transaction, ◌>>=◌}
use ctfboard.Store.Users.{find_user, lock_user_tx, get_user_by_id, get_users_by_team_id}
use ctfboard.Store.Teams.{get_team_by_id}
use ctfboard.Store.Challenges.{get_team_score_tx, team_score}
use ctfboard.TeamUseCase.Create.{
  OperationResult, try_create, try_create_when_in_team_tx, solo_team_reset,
}
use ctfboard.Entity.{User}
use ctfboard.Guard.{require_team_switch_and_teams_mode, require_team_switch, get_competition}

-- When `TryCreate` asks for a confirmation it has changed nothing and created no team, and it tells the
-- user that the reset of the solo team costs that team's whole score.
pub try_create_asks :
    (env : Env) (name : String) (k : ℕ) (is_solo : Bool) (u : User) (t : ℕ) (r : OperationResult)
    (db db' : Db)
    → find_user k db ≡ some u
    → u.team_id ≡ some t
    → try_create env name k is_solo db ≡ (ok r, db')
    → (db' ≡ db)
      × (r.team ≡ none)
      × (r.requires_confirm ≡ true)
      × (r.confirmation_reason ≡ solo_team_reset)
      × (r.affected_data ≡ some (record { solve_count = pos 0; points = team_score t db }))
unfolding try_create try_create_when_in_team_tx require_team_switch_and_teams_mode
    require_team_switch get_competition get_user_by_id lock_user_tx get_users_by_team_id
    get_team_by_id get_team_score_tx run_transaction ◌>>=◌
try_create_asks env name k is_solo u t r db db' eu et e = ground (arith, eu, et, e)
