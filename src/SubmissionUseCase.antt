-- ===== src/SubmissionUseCase.antt =====
-- backend/internal/usecase/competition/submission.go: the log of submissions, page by page.
mod Newest
pub mod Pages
mod Tests
use ctfboard.Store.Statement.{Act, pure, fail, fail_if, exec, ◌>>=◌, ◌>>◌}
use ctfboard.Store.Transaction.{ok, err, Db, Env, Result, gets}
use ctfboard.Entity.Records.{Submission, SubmissionWithDetails, SubmissionStats}
use ctfboard.Base.Int.{ℤ, pos, negsuc}
use ctfboard.Store.Challenges.{outside_int32}
use ctfboard.Store.Submissions.{
  create_submission, get_submission_stats, submissions_by_challenge, submissions_by_user,
  submissions_by_team, submissions_of_all, count_where,
}
use ctfboard.Base.{
  ℕ, List, if◌then◌else◌, ◌-◌, ltb, ◌*◌, length, ◌||◌, ◌==◌, is_some_of, take, drop,
}
use ctfboard.Entity.Errors.{int32_range}

-- `if page < 1 { page = 1 }`
unfoldable pub page_or_first : ℤ → ℕ
page_or_first (pos n) = if ltb n 1 then 1 else n
page_or_first (negsuc n) = 1

-- `if perPage < 1 || perPage > 100 { perPage = 20 }`
unfoldable pub per_page_or_twenty : ℤ → ℕ
per_page_or_twenty (pos n) = if ltb n 1 || ltb 100 n then 20 else n
per_page_or_twenty (negsuc n) = 20

-- The page of the rows, with `intToInt32Safe` for its offset, and the count of all
unfoldable pub paginate : {A : Type 0} → Env → (Db → List A) → (Db → ℕ) → ℤ → ℤ → Act (List A × ℕ)
unfolding page_or_first per_page_or_twenty outside_int32
paginate env rows count page per_page =
    let limit = per_page_or_twenty per_page in
    let offset = (page_or_first page - 1) * limit in
    do
      fail_if (outside_int32 (pos offset)) int32_range
      submissions ← exec env 0 (gets (λ db. take limit (drop offset (rows db))))
      total ← exec env 1 (gets count)
      pure (submissions, total)

-- `LogSubmission`
unfoldable pub log_submission : Env → Submission → Act (Unit {0})
unfolding create_submission
log_submission env row = exec env 0 (create_submission row)

-- `GetByChallenge`
unfoldable pub get_submissions_by_challenge : Env → ℕ → ℤ → ℤ → Act (List SubmissionWithDetails × ℕ)
unfolding paginate
get_submissions_by_challenge env k =
    paginate env (submissions_by_challenge env.ties k) (count_where (λ s. s.challenge_id == k))

-- `GetByUser`
unfoldable pub get_submissions_by_user : Env → ℕ → ℤ → ℤ → Act (List SubmissionWithDetails × ℕ)
unfolding paginate
get_submissions_by_user env k =
    paginate env (submissions_by_user env.ties k) (count_where (λ s. s.user_id == k))

-- `GetByTeam`
unfoldable pub get_submissions_by_team : Env → ℕ → ℤ → ℤ → Act (List SubmissionWithDetails × ℕ)
unfolding paginate
get_submissions_by_team env k =
    paginate env (submissions_by_team env.ties k) (count_where (λ s. is_some_of k s.team_id))

-- `GetAll`
unfoldable pub get_all_submissions : Env → ℤ → ℤ → Act (List SubmissionWithDetails × ℕ)
unfolding paginate
get_all_submissions env = paginate env (submissions_of_all env.ties) (λ db. length db.submissions)

-- `GetStats`
unfoldable pub get_stats : Env → ℕ → Act SubmissionStats
unfolding get_submission_stats
get_stats env k = exec env 0 (get_submission_stats k)
