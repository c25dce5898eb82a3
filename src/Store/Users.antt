-- ===== src/Store/Users.antt =====
-- The statements on the table `users`: backend/internal/repo/persistent/tx_user.go and
-- user_postgres.go. A read outside the transaction (`userRepo.GetByID`) sees what the transaction
-- sees, since the code makes such reads before its writes.
use ctfboard.Base.{ℕ, Bool, Option, List, ◌==◌, select_one, select_many, update_where, is_some_of}
use ctfboard.Entity.{User}
use ctfboard.Entity.Errors.{user_not_found}
use ctfboard.Store.Transaction.{Db, Tx, query, gets, modify, ◌>>◌}

abbrev pub has_id : ℕ → User → Bool
has_id k u = u.id == k

abbrev pub find_user : ℕ → Db → Option User
find_user k db = select_one (has_id k) db.users

abbrev pub members_of : ℕ → List User → List User
members_of t = select_many (λ u. is_some_of t u.team_id)

abbrev pub with_user_team : ℕ → Option ℕ → Db → Db
with_user_team k t db = record db {
  users = update_where (has_id k) (λ u. record u { team_id = t }) db.users;
}

-- `LockUserTx`: `SELECT id FROM users WHERE id = $1 FOR UPDATE`
unfoldable pub lock_user_tx : ℕ → Tx (Unit {0})
lock_user_tx k = do query (find_user k) user_not_found; gets (λ _. tt)

-- `UserRepo.GetByID`
unfoldable pub get_user_by_id : ℕ → Tx User
get_user_by_id k = query (find_user k) user_not_found

-- `GetUsersByTeamIDTx` and `UserRepo.GetByTeamID`
unfoldable pub get_users_by_team_id : ℕ → Tx (List User)
get_users_by_team_id t = gets (λ db. members_of t db.users)

-- `UpdateUserTeamIDTx`: `UPDATE users SET team_id = $2 WHERE id = $1 RETURNING id`
unfoldable pub update_user_team_id_tx : ℕ → Option ℕ → Tx (Unit {0})
update_user_team_id_tx k t = do query (find_user k) user_not_found; modify (with_user_team k t)
