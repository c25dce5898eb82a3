-- ===== src/SolveUseCase.antt =====
-- backend/internal/usecase/competition/solve.go: `Create`, the other way to record a solve.
pub mod Agreement
mod Tests
use ctfboard.Base.{ℕ, Bool, true, false, Option, none, some, ◌==◌, if◌then◌else◌}
use ctfboard.Base.Int.{ℤ, pos, leb_ℤ, eqb_ℤ}
use ctfboard.Entity.{Challenge, Solve, Team}
use ctfboard.Entity.Errors.{Error, already_solved, no_team_selected}
use ctfboard.Store.Transaction.{
  Db, Env, Result, ok, err, Tx, pure, query, fail_if, run_transaction, ◌>>=◌, ◌>>◌,
}
use ctfboard.Store.Users.{lock_user_tx, get_user_by_id}
use ctfboard.Store.Teams.{find_team}
use ctfboard.Store.Challenges.{
  get_challenge_by_id, solve_exists_tx, create_solve_tx, increment_challenge_solve_count_tx,
  update_challenge_points_tx,
}
use ctfboard.Scoring.{Float64, calculate_dynamic_score}
use ctfboard.Scoreboard.{World}
use ctfboard.Cache.Boards.{invalidate_for_team}

-- `solveCreateResolveTeamID` for a solve without a team
abbrev pub team_of_user : ℕ → Tx ℕ
team_of_user user_id = do
  lock_user_tx user_id
  user ← get_user_by_id user_id
  query (λ _. user.team_id) no_team_selected

-- `solveCreateResolveTeamID`
unfoldable pub solve_create_resolve_team_id : Solve → Tx ℕ
solve_create_resolve_team_id s = if s.team_id == 0 then team_of_user s.user_id else pure s.team_id

abbrev pub set_points : Challenge → ℤ → Tx Challenge
set_points challenge points = if eqb_ℤ points challenge.points then pure challenge else (do
  update_challenge_points_tx challenge.id points
  pure (record challenge { points = points }))

-- `if challenge.Decay > 0 { ... }`
abbrev pub update_points : Float64 → Challenge → ℤ → Tx Challenge
update_points F challenge new_count =
    if leb_ℤ challenge.decay (pos 0)
    then pure challenge
    else set_points challenge (
        calculate_dynamic_score F challenge.initial_value challenge.min_value challenge.decay
          new_count)

-- `solveCreateUpsertInTx`; the repository draws the id and the time of the solve.
unfoldable pub solve_create_upsert_in_tx : Env → Float64 → Solve → Tx (Challenge × Bool)
solve_create_upsert_in_tx env F s = do
  challenge ← get_challenge_by_id s.challenge_id
  exists ← solve_exists_tx s.team_id s.challenge_id
  fail_if exists already_solved
  create_solve_tx (record s { id = env.uuid 0; solved_at = env.now })
  new_count ← increment_challenge_solve_count_tx s.challenge_id
  updated ← update_points F challenge new_count
  pure (updated, eqb_ℤ challenge.solve_count (pos 0))

-- The transaction of `Create`, with the team that the solve ends up with
unfoldable pub solve_create_tx : Env → Float64 → Solve → Tx (ℕ × Challenge × Bool)
unfolding solve_create_resolve_team_id solve_create_upsert_in_tx
solve_create_tx env F s = do
  team_id ← solve_create_resolve_team_id s
  (challenge, is_first_blood) ← solve_create_upsert_in_tx env F (record s { team_id = team_id })
  pure (team_id, challenge, is_first_blood)

-- `GetTeamBracketID`
abbrev pub bracket_of : Option Team → Option ℕ
bracket_of none = none
bracket_of (some t) = t.bracket_id

abbrev pub created :
    World → Result (ℕ × Challenge × Bool) × Db → Result (ℕ × Challenge × Bool) × World
created w (ok (t, c, b), db) = (
  ok (t, c, b),
  record { db = db; boards = invalidate_for_team (bracket_of (find_team t db)) w.boards },
)
created w (err e, db) = (err e, record { db = db; boards = w.boards })

-- `Create`; the values of a success are what `NotifySolve` broadcasts.
unfoldable pub solve_create : Env → Float64 → Solve → World → Result (ℕ × Challenge × Bool) × World
unfolding solve_create_tx
solve_create env F s w = created w (run_transaction env (solve_create_tx env F s) w.db)
