-- ===== src/Store/Submissions.antt =====
-- backend/internal/repo/persistent/submission_postgres.go and the queries that it runs. Rows of the same
-- time come in an order that each query chooses anew (`Env.ties`).
use ctfboard.Store.Transaction.{◌>>=◌, ◌>>◌, Tx, Db, gets, modify, fail_if}
use ctfboard.Entity.Records.{Submission, SubmissionWithDetails, SubmissionStats}
use ctfboard.Store.Users.{has_id, find_user}
use ctfboard.Base.{
  ℕ, exists_where, List, Option, String, Bool, true, ◌==◌, ◌∷◌, some, select_one, length, str_eq,
  if◌then◌else◌, select_many, ◌&&◌, leb, is_some_of, not, ltb, none, [], ◌||◌,
}
use ctfboard.Entity.{User, Challenge}
use ctfboard.Entity.Errors.{unique_violation, foreign_key_violation}

abbrev is_some_id : (ℕ → Bool) → Option ℕ → Bool
is_some_id p none = true
is_some_id p (some k) = p k

-- `SubmissionRepo.Create`: the keys are unique, and the user, the team and the challenge exist.
unfoldable pub create_submission : Submission → Tx (Unit {0})
create_submission row = do
  taken ← gets (λ db. exists_where (λ s. s.id == row.id) db.submissions)
  fail_if taken unique_violation
  known ← gets λ db.
      exists_where (has_id row.user_id) db.users
      && is_some_id (λ k. exists_where (λ t. t.id == k) db.teams) row.team_id
      && exists_where (λ c. c.id == row.challenge_id) db.challenges
  fail_if (not known) foreign_key_violation
  modify (λ db. record db { submissions = row ∷ db.submissions })

-- `ORDER BY s.created_at DESC`, which leaves the order of rows of the same time to the database
abbrev pub goes_before : (ℕ → ℕ) → Submission → Submission → Bool
goes_before ties a b =
    ltb b.created_at a.created_at || (a.created_at == b.created_at && leb (ties a.id) (ties b.id))

abbrev pub insert_row : (ℕ → ℕ) → Submission → List Submission → List Submission
insert_row ties a [] = a ∷ []
insert_row ties a (b ∷ bs) = if goes_before ties a b then a ∷ b ∷ bs else b ∷ insert_row ties a bs

abbrev pub newest_first : (ℕ → ℕ) → List Submission → List Submission
newest_first ties [] = []
newest_first ties (a ∷ rest) = insert_row ties a (newest_first ties rest)

-- `JOIN`: rows without a partner are left out.
abbrev pub join_rows :
    (Submission → Option SubmissionWithDetails) → List Submission → List SubmissionWithDetails
join_rows f [] = []
join_rows f (s ∷ rest) = elim (f s) [ none ↦ join_rows f rest | some d ↦ d ∷ join_rows f rest ]

abbrev details : String → String → String → String → Submission → SubmissionWithDetails
details username team_name title category s = record {
  submission = s;
  username = username;
  team_name = team_name;
  challenge_title = title;
  challenge_category = category;
}

-- `COALESCE(t.name, '')`
abbrev team_name_of : Option ℕ → Db → String
team_name_of none db = ""
team_name_of (some k) db = elim (select_one (λ t. t.id == k) db.teams) [
  | none ↦ ""
  | some t ↦ t.name
]

abbrev with_user :
    Db → Submission → (User → Option SubmissionWithDetails) → Option SubmissionWithDetails
with_user db s f = elim (find_user s.user_id db) [ none ↦ none | some u ↦ f u ]

abbrev with_challenge_of :
    Db → Submission → (Challenge → Option SubmissionWithDetails) → Option SubmissionWithDetails
with_challenge_of db s f = elim (select_one (λ c. c.id == s.challenge_id) db.challenges) [
  | none ↦ none
  | some c ↦ f c
]

-- `GetSubmissionsByChallenge`, before `LIMIT` and `OFFSET`, like the three below
abbrev pub submissions_by_challenge : (ℕ → ℕ) → ℕ → Db → List SubmissionWithDetails
submissions_by_challenge ties k db =
    join_rows
      (λ s. with_user db s λ u. some (details u.username (team_name_of s.team_id db) "" "" s))
      (newest_first ties (select_many (λ s. s.challenge_id == k) db.submissions))

-- `GetSubmissionsByUser`
abbrev pub submissions_by_user : (ℕ → ℕ) → ℕ → Db → List SubmissionWithDetails
submissions_by_user ties k db =
    join_rows (λ s. with_challenge_of db s λ c. some (details "" "" c.title c.category s))
      (newest_first ties (select_many (λ s. s.user_id == k) db.submissions))

-- `GetSubmissionsByTeam`
abbrev pub submissions_by_team : (ℕ → ℕ) → ℕ → Db → List SubmissionWithDetails
submissions_by_team ties k db =
    join_rows
      (λ s.
        with_user db s
          λ u. with_challenge_of db s λ c. some (details u.username "" c.title c.category s))
      (newest_first ties (select_many (λ s. is_some_of k s.team_id) db.submissions))

-- `GetAllSubmissions`
abbrev pub submissions_of_all : (ℕ → ℕ) → Db → List SubmissionWithDetails
submissions_of_all ties db =
    join_rows
      (λ s. with_user db s λ u.
        with_challenge_of db s
          λ c. some (details u.username (team_name_of s.team_id db) c.title c.category s))
      (newest_first ties db.submissions)

abbrev pub count_where : (Submission → Bool) → Db → ℕ
count_where p db = length (select_many p db.submissions)

-- `GetSubmissionStats`
unfoldable pub get_submission_stats : ℕ → Tx SubmissionStats
get_submission_stats k = gets λ db. record {
  total = count_where (λ s. s.challenge_id == k) db;
  correct = count_where (λ s. s.challenge_id == k && s.is_correct) db;
  incorrect = count_where (λ s. s.challenge_id == k && not s.is_correct) db;
}

-- `CountFailedByIP`
unfoldable pub count_failed_by_ip : String → ℕ → Tx ℕ
count_failed_by_ip ip since =
    gets (count_where (λ s. str_eq s.ip ip && (not s.is_correct && ltb since s.created_at)))
