-- ===== src/BracketUseCase.antt =====
-- backend/internal/usecase/competition/bracket.go: the brackets that teams compete in.
pub mod Rows
pub mod Names
mod Tests
use ctfboard.Store.Statement.{Act, pure, fail, fail_if, exec, ◌>>=◌, ◌>>◌}
use ctfboard.Store.Transaction.{ok, err, Db, Env, Result, gets}
use ctfboard.Entity.Records.{Bracket}
use ctfboard.Golang.{trim_space}
use ctfboard.Entity.Errors.{name_required}
use ctfboard.Base.{String, Bool, ℕ, List, str_eq}
use ctfboard.Store.Brackets.{
  create_bracket, get_bracket_by_id, get_all_brackets, delete_bracket, update_bracket,
}

abbrev pub new_bracket : Env → String → String → Bool → Bracket
new_bracket env name description is_default = record {
  id = env.uuid 0;
  name = name;
  description = description;
  is_default = is_default;
  created_at = env.now;
}

-- `Create`
unfoldable pub add_bracket : Env → String → String → Bool → Act Bracket
unfolding create_bracket
add_bracket env name description is_default = do
  fail_if (str_eq (trim_space name) "") name_required
  exec env 0 (create_bracket (new_bracket env (trim_space name) description is_default))
  pure (new_bracket env (trim_space name) description is_default)

-- `GetByID`
unfoldable pub get_bracket : Env → ℕ → Act Bracket
unfolding get_bracket_by_id
get_bracket env k = exec env 0 (get_bracket_by_id k)

-- `GetAll`
unfoldable pub get_brackets : Env → Act (List Bracket)
unfolding get_all_brackets
get_brackets env = exec env 0 get_all_brackets

abbrev pub edited : Bracket → String → String → Bool → Bracket
edited b name description is_default = record b {
  name = name;
  description = description;
  is_default = is_default;
}

-- `Update`
unfoldable pub edit_bracket : Env → ℕ → String → String → Bool → Act Bracket
unfolding get_bracket_by_id update_bracket
edit_bracket env k name description is_default = do
  b ← exec env 0 (get_bracket_by_id k)
  fail_if (str_eq (trim_space name) "") name_required
  exec env 1 (update_bracket (edited b (trim_space name) description is_default))
  pure (edited b (trim_space name) description is_default)

-- `Delete`
unfoldable pub remove_bracket : Env → ℕ → Act (Unit {0})
unfolding delete_bracket
remove_bracket env k = exec env 0 (delete_bracket k)
