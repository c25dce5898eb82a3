-- ===== src/SolveUseCase/Tests.antt =====
-- A solve recorded in both ways, and the theorem at that input.
use ctfboard.Base.{◌≡◌, refl, false, [], ◌∷◌, arith}
use ctfboard.Base.Int.{pos, ◌+ℤ◌, ◌-ℤ◌}
use ctfboard.Store.Transaction.{Db, ok, ◌>>=◌}
use ctfboard.Store.Challenges.{
  get_challenge_by_id, solve_exists_tx, create_solve_tx, increment_challenge_solve_count_tx,
  update_challenge_points_tx, outside_int32,
}
use ctfboard.Scoring.{calculate_dynamic_score, at_least}
use ctfboard.Scoring.Whole.{whole}
use ctfboard.ChallengeUseCase.Submit.{submit_record_solve_tx}
use ctfboard.SolveUseCase.{solve_create_upsert_in_tx}
use ctfboard.SolveUseCase.Agreement.{solve_create_agrees, solve_of}
use ctfboard.Samples.{challenge, running, at_time}

abbrev solved : Db
solved = record running {
  challenges = record challenge { solve_count = pos 2; points = pos 400 } ∷ [];
  solves = record { id = 1010; user_id = 1; team_id = 10; challenge_id = 5; solved_at = 1 } ∷ [];
}

solve_create_agrees_example :
    solve_create_upsert_in_tx (at_time 1) whole (solve_of 5 1 10) running
    ≡ ok ((record challenge { points = pos 400 }, false), solved)
unfolding submit_record_solve_tx solve_exists_tx get_challenge_by_id create_solve_tx
    increment_challenge_solve_count_tx update_challenge_points_tx calculate_dynamic_score at_least
    outside_int32 ◌+ℤ◌ ◌-ℤ◌ ◌>>=◌
solve_create_agrees_example =
    solve_create_agrees (at_time 1) whole 5 1 10 challenge
      (record challenge { points = pos 400 }, pos 2) running solved refl (omega arith) refl
