-- ===== src/UserUseCase/Tokens.antt =====
-- backend/internal/usecase/user/apitoken.go
use ctfboard.Base.{none, ℕ, List, String, Option}
use ctfboard.Store.Statement.{Act, pure, exec, ◌>>=◌, ◌>>◌}
use ctfboard.Store.Transaction.{Env}
use ctfboard.Session.Tokens.{Packages}
use ctfboard.Entity.Accounts.{ApiToken}
use ctfboard.Store.ApiTokens.{delete_api_token, get_api_tokens_by_user_id, create_api_token}
use ctfboard.UserUseCase.{from_option}
use ctfboard.Entity.Errors.{random_failed}

abbrev new_api_token : Packages → Env → ℕ → String → Option ℕ → String → ApiToken
new_api_token P env user_id description expires_at plaintext = record {
  id = env.uuid 0;
  user_id = user_id;
  token_hash = P.sha256_hex plaintext;
  description = description;
  expires_at = expires_at;
  last_used_at = none;
  created_at = env.now;
}

-- `Create`: the plaintext and the row
unfoldable pub create_token_for : Packages → Env → ℕ → String → Option ℕ → Act (String × ApiToken)
create_token_for P env user_id description expires_at = do
  plaintext ← from_option random_failed P.random_token
  exec env 0 (create_api_token (new_api_token P env user_id description expires_at plaintext))
  pure (plaintext, new_api_token P env user_id description expires_at plaintext)

-- `List`
unfoldable pub list_tokens : Env → ℕ → Act (List ApiToken)
list_tokens env user_id = exec env 0 (get_api_tokens_by_user_id user_id)

-- `Delete`
unfoldable pub delete_token : Env → ℕ → ℕ → Act (Unit {0})
delete_token env k user_id = exec env 0 (delete_api_token k user_id)
