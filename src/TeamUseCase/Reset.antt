-- ===== src/TeamUseCase/Reset.antt =====
-- What the reset of a solo team leaves of its solves.
use ctfboard.Base.{
  ℕ, refl, [], Bool, true, List, select_one, ◌≢◌, delete_where, ◌≡◌, none, ◌∷◌,
  select_one-delete_where, arith,
}
use ctfboard.TeamUseCase.Cleanup.{handle_solo_team_cleanup}
use ctfboard.Entity.{Solve, User}
use ctfboard.Store.Teams.{
  get_team_by_id, soft_delete_team_tx, of_team, delete_solves_by_team_id_tx,
  create_team_audit_log_tx,
}
use ctfboard.Store.Challenges.{is_solve_of, find_solve, find_challenge}
use ctfboard.Store.Users.{get_users_by_team_id}
use ctfboard.Store.Transaction.{Db, Env, ok, ◌>>=◌}

no_solve_of_team :
    (t k : ℕ) (ss : List Solve) → select_one (is_solve_of t k) (delete_where (of_team t) ss) ≡ none
no_solve_of_team t k ss =
    select_one-delete_where (of_team t) (is_solve_of t k) ss (λ s e. ground (arith, e))

solves_of_others :
    (t s k : ℕ) (ss : List Solve)
    → s ≢ t
    → select_one (is_solve_of s k) (delete_where (of_team t) ss) ≡ select_one (is_solve_of s k) ss
solves_of_others t s k [] ne = refl
solves_of_others t s k (x ∷ ss) ne = ground (arith, ne, solves_of_others t s k ss ne)

-- The reset of a solo team, which takes the user's confirmation, removes the team's solves and no
-- other team's, but each challenge keeps its points and the count of its solves, the removed ones
-- included.
pub solo_reset_keeps_counts :
    (env : Env) (user : User) (t actor s k : ℕ) (confirm_reset : Bool) (db db' : Db)
    → s ≢ t
    → handle_solo_team_cleanup env user t actor confirm_reset db ≡ ok (tt, db')
    → (confirm_reset ≡ true)
      × (find_solve t k db' ≡ none)
      × (find_solve s k db' ≡ find_solve s k db)
      × (find_challenge k db' ≡ find_challenge k db)
unfolding handle_solo_team_cleanup get_team_by_id get_users_by_team_id soft_delete_team_tx
    delete_solves_by_team_id_tx create_team_audit_log_tx ◌>>=◌
solo_reset_keeps_counts env user t actor s k confirm_reset db db' ne e = (
  ground (arith, e),
  ground (arith, e, no_solve_of_team t k db.solves),
  ground (arith, e, solves_of_others t s k db.solves ne),
  ground (arith, e),
)
