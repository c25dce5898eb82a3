-- ===== src/CommentUseCase.antt =====
-- backend/internal/usecase/challenge/comment.go: comments on challenges.
pub mod Ownership
mod Tests
use ctfboard.Store.Statement.{Act, pure, fail, fail_if, exec, ◌>>=◌, ◌>>◌}
use ctfboard.Store.Transaction.{ok, err, Db, Env, Result, gets}
use ctfboard.Entity.Records.{Comment}
use ctfboard.Golang.{trim_space}
use ctfboard.Base.{ℕ, String, List, str_eq, not, ◌==◌}
use ctfboard.Store.Comments.{
  get_comments_by_challenge_id, get_comment_by_id, create_comment, delete_comment,
}
use ctfboard.Store.Challenges.{get_challenge_by_id}
use ctfboard.Entity.Errors.{content_required, comment_forbidden}

abbrev pub new_comment : Env → ℕ → ℕ → String → Comment
new_comment env user_id challenge_id content = record {
  id = env.uuid 0;
  user_id = user_id;
  challenge_id = challenge_id;
  content = content;
  created_at = env.now;
  updated_at = env.now;
}

-- `GetByChallengeID`
unfoldable pub get_comments : Env → ℕ → Act (List Comment)
unfolding get_comments_by_challenge_id
get_comments env challenge_id = exec env 0 (get_comments_by_challenge_id challenge_id)

-- `Create`
unfoldable pub add_comment : Env → ℕ → ℕ → String → Act Comment
unfolding get_challenge_by_id create_comment
add_comment env user_id challenge_id content = do
  fail_if (str_eq (trim_space content) "") content_required
  exec env 0 (get_challenge_by_id challenge_id)
  exec env 1 (create_comment (new_comment env user_id challenge_id (trim_space content)))
  pure (new_comment env user_id challenge_id (trim_space content))

-- `Delete`
unfoldable pub remove_comment : Env → ℕ → ℕ → Act (Unit {0})
unfolding get_comment_by_id delete_comment
remove_comment env k user_id = do
  c ← exec env 0 (get_comment_by_id k)
  fail_if (not (c.user_id == user_id)) comment_forbidden
  exec env 1 (delete_comment k)
