-- ===== src/ChallengeUseCase/Removed.antt =====
-- What is left of a deleted challenge.
use ctfboard.Base.{
  ℕ, ◌≡◌, none, String, List, [], ◌∷◌, ◌==◌, arith, select_one, delete_where,
  select_one-delete_where, if◌then◌else◌, exists_where-none,
}
use ctfboard.Entity.{Challenge, Solve}
use ctfboard.Entity.Errors.{challenge_not_found}
use ctfboard.Scoring.{Float64}
use ctfboard.Store.Transaction.{Db, Env, ok, err, ◌>>=◌}
use ctfboard.Store.Challenges.{
  has_challenge_id, find_challenge, find_solve, is_solve_of, get_challenge_by_id,
  delete_challenge_tx, create_audit_log_tx, solve_exists_tx,
}
use ctfboard.ChallengeUseCase.Delete.{delete_tx}
use ctfboard.ChallengeUseCase.Submit.{submit_record_solve_tx}

find_challenge-delete :
    (j k : ℕ) (cs : List Challenge)
    → select_one (has_challenge_id j) (delete_where (has_challenge_id k) cs)
      ≡ (if j == k then none else select_one (has_challenge_id j) cs)
find_challenge-delete j k [] = ground arith
find_challenge-delete j k (c ∷ cs) = ground (arith, find_challenge-delete j k cs)

no_solve_left :
    (t k : ℕ) (ss : List Solve)
    → select_one (is_solve_of t k) (delete_where (λ s. s.challenge_id == k) ss) ≡ none
no_solve_left t k ss =
    select_one-delete_where (λ s. s.challenge_id == k) (is_solve_of t k) ss
      (λ s e. ground (arith, e))

-- A deleted challenge is gone with its solves, and the other challenges stay.
pub delete_tx_removes :
    (env : Env) (k actor j t : ℕ) (ip : String) (db db' : Db)
    → delete_tx env k actor ip db ≡ ok (tt, db')
    → (find_challenge j db' ≡ (if j == k then none else find_challenge j db))
      × (find_solve t k db' ≡ none)
      × (db'.awards ≡ db.awards)
unfolding delete_tx get_challenge_by_id delete_challenge_tx create_audit_log_tx ◌>>=◌
delete_tx_removes env k actor j t ip db db' e = (
  ground (arith, e, find_challenge-delete j k db.challenges),
  ground (arith, e, no_solve_left t k db.solves),
  ground (arith, e),
)

-- Nobody can solve a deleted challenge any more, not even a team that was first to submit its flag.
pub delete_tx_unsolvable :
    (env env' : Env) (F : Float64) (k actor user t : ℕ) (ip : String) (db db' : Db)
    → delete_tx env k actor ip db ≡ ok (tt, db')
    → submit_record_solve_tx env' F k user t db' ≡ err challenge_not_found
unfolding submit_record_solve_tx get_challenge_by_id solve_exists_tx ◌>>=◌
delete_tx_unsolvable env env' F k actor user t ip db db' e =
    let h = delete_tx_removes env k actor k t ip db db' e in
    ground (arith, h.0, exists_where-none (is_solve_of t k) db'.solves h.1)
