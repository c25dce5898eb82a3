-- ===== src/Store/Comments.antt =====
-- backend/internal/repo/persistent/comment_postgres.go
use ctfboard.Store.Transaction.{◌>>=◌, ◌>>◌, Tx, gets, modify, fail_if, query}
use ctfboard.Entity.Records.{Comment}
use ctfboard.Store.Users.{has_id}
use ctfboard.Base.{
  ℕ, exists_where, List, Bool, select_one, ◌∷◌, select_many, delete_where, ◌==◌, if◌then◌else◌, leb,
  [], ◌&&◌, not,
}
use ctfboard.Entity.Errors.{unique_violation, comment_not_found, foreign_key_violation}

abbrev pub has_comment_id : ℕ → Comment → Bool
has_comment_id k c = c.id == k

-- `CommentRepo.Create`: the keys are unique, and the user and the challenge exist.
unfoldable pub create_comment : Comment → Tx (Unit {0})
create_comment row = do
  taken ← gets (λ db. exists_where (has_comment_id row.id) db.comments)
  fail_if taken unique_violation
  known ← gets λ db.
      exists_where (has_id row.user_id) db.users
      && exists_where (λ c. c.id == row.challenge_id) db.challenges
  fail_if (not known) foreign_key_violation
  modify (λ db. record db { comments = row ∷ db.comments })

-- `CommentRepo.GetByID`
unfoldable pub get_comment_by_id : ℕ → Tx Comment
get_comment_by_id k = query (λ db. select_one (has_comment_id k) db.comments) comment_not_found

abbrev insert_comment : Comment → List Comment → List Comment
insert_comment a [] = a ∷ []
insert_comment a (b ∷ bs) =
    if leb a.created_at b.created_at then a ∷ b ∷ bs else b ∷ insert_comment a bs

-- `ORDER BY created_at ASC`
abbrev oldest_first : List Comment → List Comment
oldest_first [] = []
oldest_first (a ∷ rest) = insert_comment a (oldest_first rest)

-- `CommentRepo.GetByChallengeID`
unfoldable pub get_comments_by_challenge_id : ℕ → Tx (List Comment)
get_comments_by_challenge_id k =
    gets (λ db. oldest_first (select_many (λ c. c.challenge_id == k) db.comments))

-- `CommentRepo.Delete`
unfoldable pub delete_comment : ℕ → Tx (Unit {0})
delete_comment k =
    modify (λ db. record db { comments = delete_where (has_comment_id k) db.comments })
