-- ===== src/Store/Accounts.antt =====
-- The statements on accounts outside transactions: backend/internal/repo/persistent/user_postgres.go,
-- tx_user.go (`CreateUserTx`), verification_token_postgres.go and api_token_postgres.go.
use ctfboard.Base.{
  String, ℕ, Bool, none, str_eq, update_where, false, select_one, true, delete_where, some, ltb,
  ◌==◌, ◌&&◌, exists_where, ◌||◌, ◌∷◌, not,
}
use ctfboard.Store.Transaction.{◌>>=◌, ◌>>◌, Env, Tx, Db, query, modify, gets, pure, fail_if}
use ctfboard.Entity.{User}
use ctfboard.Entity.Errors.{
  user_not_found, token_not_found, unique_violation, foreign_key_violation,
}
use ctfboard.Store.Users.{has_id}
use ctfboard.Entity.Accounts.{TokenType, VerificationToken, same_type}

abbrev pub has_email : String → User → Bool
has_email email u = str_eq u.email email

-- `UserRepo.GetByEmail`
unfoldable pub get_by_email : String → Tx User
get_by_email email = query (λ db. select_one (has_email email) db.users) user_not_found

-- `UserRepo.GetByUsername`
unfoldable pub get_by_username : String → Tx User
get_by_username username =
    query (λ db. select_one (λ u. str_eq u.username username) db.users) user_not_found

abbrev pub with_user : ℕ → (User → User) → Db → Db
with_user k f db = record db { users = update_where (has_id k) f db.users }

-- `UPDATE users SET is_verified = $2, verified_at = $3 WHERE id = $1`, whether there is such a row or not
unfoldable pub set_verified : Env → ℕ → Tx (Unit {0})
set_verified env k =
    modify (with_user k (λ u. record u { is_verified = true; verified_at = some env.now }))

-- `UPDATE users SET password_hash = $2 WHERE id = $1`
unfoldable pub update_password : ℕ → String → Tx (Unit {0})
update_password k hash = modify (with_user k (λ u. record u { password_hash = hash }))

abbrev pub new_user : Env → String → String → String → String → User
new_user env username email hash role = record {
  id = env.uuid 0;
  team_id = none;
  username = username;
  email = email;
  password_hash = hash;
  role = role;
  is_verified = false;
  verified_at = none;
  created_at = env.now;
}

-- `INSERT INTO users`: the key, the username and the email are unique.
abbrev pub insert_user : User → Tx (Unit {0})
insert_user row = do
  taken ← gets λ db.
      exists_where
        (λ u. u.id == row.id || (str_eq u.username row.username || str_eq u.email row.email))
        db.users
  fail_if taken unique_violation
  modify (λ db. record db { users = row ∷ db.users })

-- `CreateUserTx`
unfoldable pub create_user_tx : Env → String → String → String → String → Tx User
create_user_tx env username email hash role = do
  insert_user (new_user env username email hash role)
  pure (new_user env username email hash role)

abbrev pub of_user_and_type : ℕ → TokenType → VerificationToken → Bool
of_user_and_type k type t = t.user_id == k && same_type t.token_type type

-- `VerificationTokenRepo.DeleteByUserAndType`
unfoldable pub delete_by_user_and_type : ℕ → TokenType → Tx (Unit {0})
delete_by_user_and_type k type = modify λ db. record db {
  verification_tokens = delete_where (of_user_and_type k type) db.verification_tokens;
}

abbrev pub has_token : String → VerificationToken → Bool
has_token token t = str_eq t.token token

-- `VerificationTokenRepo.GetByToken`
unfoldable pub get_by_token : String → Tx VerificationToken
get_by_token token =
    query (λ db. select_one (has_token token) db.verification_tokens) token_not_found

-- `VerificationTokenRepo.Create`: the key and the token are unique, and the user exists.
unfoldable pub create_token : Env → ℕ → String → TokenType → ℕ → Tx (Unit {0})
create_token env user_id token type expires_at = do
  taken ←
      gets
        λ db. exists_where (λ t. t.id == env.uuid 1 || str_eq t.token token) db.verification_tokens
  fail_if taken unique_violation
  known ← gets (λ db. exists_where (has_id user_id) db.users)
  fail_if (not known) foreign_key_violation
  modify λ db. record db {
    verification_tokens =
        record {
          id = env.uuid 1;
          user_id = user_id;
          token = token;
          token_type = type;
          expires_at = expires_at;
          used_at = none;
          created_at = env.now;
        }
        ∷ db.verification_tokens;
  }

-- `VerificationTokenRepo.DeleteExpired`
unfoldable pub delete_expired : Env → Tx (Unit {0})
delete_expired env = modify λ db. record db {
  verification_tokens = delete_where (λ t. ltb t.expires_at env.now) db.verification_tokens;
}
