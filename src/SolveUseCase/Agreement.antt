-- ===== src/SolveUseCase/Agreement.antt =====
-- The two ways to record a solve agree.
use ctfboard.Base.{ℕ, ◌≡◌, some, arith}
use ctfboard.Base.Int.{ℤ, pos, ◌<ℤ◌, eqb_ℤ}
use ctfboard.Entity.{Challenge, Solve}
use ctfboard.Store.Transaction.{Db, Env, ok, ◌>>=◌}
use ctfboard.Store.Challenges.{
  find_challenge, get_challenge_by_id, solve_exists_tx, create_solve_tx,
  increment_challenge_solve_count_tx, update_challenge_points_tx, found_challenge_key,
}
use ctfboard.Scoring.{Float64}
use ctfboard.ChallengeUseCase.Submit.{submit_record_solve_tx}
use ctfboard.SolveUseCase.{solve_create_upsert_in_tx}

abbrev pub solve_of : ℕ → ℕ → ℕ → Solve
solve_of k user t = record { id = 0; user_id = user; team_id = t; challenge_id = k; solved_at = 0 }

-- For a challenge with a positive initial value, `SolveUseCase.Create` leaves the same tables as
-- `SubmitFlag`, returns the same challenge, and reports a first blood for a challenge that nobody had
-- solved.
pub solve_create_agrees :
    (env : Env) (F : Float64) (k user t : ℕ) (c : Challenge) (r : Challenge × ℤ) (db db' : Db)
    → find_challenge k db ≡ some c
    → pos 0 <ℤ c.initial_value
    → submit_record_solve_tx env F k user t db ≡ ok (r, db')
    → solve_create_upsert_in_tx env F (solve_of k user t) db
      ≡ ok ((r.0, eqb_ℤ c.solve_count (pos 0)), db')
unfolding submit_record_solve_tx solve_create_upsert_in_tx get_challenge_by_id solve_exists_tx
    create_solve_tx increment_challenge_solve_count_tx update_challenge_points_tx ◌>>=◌
solve_create_agrees env F k user t c r db db' found initial e =
    ground (arith, found, e, initial, found_challenge_key k c db.challenges found)
