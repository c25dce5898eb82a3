-- ===== src/ChallengeUseCase/Submit.antt =====
-- backend/internal/usecase/challenge/challenge.go: `SubmitFlag`.
use ctfboard.Base.{
  ℕ, Bool, true, false, not, Option, none, some, String, str_eq, if◌then◌else◌, ◌||◌,
}
use ctfboard.Base.Int.{ℤ, pos, leb_ℤ, eqb_ℤ}
use ctfboard.Entity.{Challenge}
use ctfboard.Entity.Competitions.{Competition}
use ctfboard.Entity.Errors.{
  Error, already_solved, bad_regex, invalid_flag_format, team_banned, user_must_be_in_team,
}
use ctfboard.Store.Transaction.{
  Db, Env, Result, ok, err, Tx, pure, fail, fail_if, gets, run_transaction, ◌>>=◌, ◌>>◌,
}
use ctfboard.Store.Teams.{get_team_by_id}
use ctfboard.Store.Challenges.{
  get_challenge_by_id, solve_exists_tx, create_solve_tx, increment_challenge_solve_count_tx,
  update_challenge_points_tx,
}
use ctfboard.Scoring.{Float64, calculate_dynamic_score}
use ctfboard.Scoreboard.{World}
use ctfboard.Cache.Boards.{invalidate_all}
use ctfboard.ChallengeUseCase.Flags.{Platform, submit_check_flag}

-- `s != nil && *s != ""`
abbrev pub or_text : Option String → String → String
or_text none rest = rest
or_text (some s) rest = if str_eq s "" then rest else s

abbrev pub competition_regex : Option Competition → String
competition_regex none = ""
competition_regex (some c) = or_text c.flag_regex ""

abbrev pub match_format : Platform → String → String → Tx (Unit {0})
match_format P format flag = if str_eq format "" then pure tt else elim (P.compile format) [
  | none ↦ fail bad_regex
  | some m ↦ fail_if (not (m flag)) invalid_flag_format
]

-- `submitValidateFlagFormat`
unfoldable pub submit_validate_flag_format : Platform → Challenge → String → Tx (Unit {0})
submit_validate_flag_format P c flag = do
  comp ← gets (λ db. db.competition)
  match_format P (or_text c.flag_format_regex (competition_regex comp)) flag

-- `submitValidateTeam`, for the repository that is always wired
unfoldable pub submit_validate_team : ℕ → Tx (Unit {0})
submit_validate_team team_id = do team ← get_team_by_id team_id; fail_if team.is_banned team_banned

-- What `SubmitFlag` does before it records a solve: it only reads.
unfoldable pub submit_verdict : Platform → ℕ → String → ℕ → Tx Bool
unfolding submit_validate_team submit_validate_flag_format
submit_verdict P challenge_id flag team_id = do
  submit_validate_team team_id
  challenge ← get_challenge_by_id challenge_id
  submit_validate_flag_format P challenge flag
  pure (submit_check_flag P challenge flag)

abbrev pub set_points : ℕ → Challenge → ℤ → Tx Challenge
set_points challenge_id solved points = if eqb_ℤ points solved.points then pure solved else (do
  update_challenge_points_tx challenge_id points
  pure (record solved { points = points }))

-- `submitRecordSolveUpdatePointsIfDecay`
unfoldable pub submit_record_solve_update_points_if_decay :
    Float64 → ℕ → Challenge → ℤ → Tx Challenge
submit_record_solve_update_points_if_decay F challenge_id solved solve_count =
    if leb_ℤ solved.initial_value (pos 0) || leb_ℤ solved.decay (pos 0)
    then pure solved
    else set_points challenge_id solved
        (calculate_dynamic_score F solved.initial_value solved.min_value solved.decay solve_count)

-- The transaction of `submitRecordSolve`
unfoldable pub submit_record_solve_tx : Env → Float64 → ℕ → ℕ → ℕ → Tx (Challenge × ℤ)
unfolding submit_record_solve_update_points_if_decay
submit_record_solve_tx env F challenge_id user_id team_id = do
  exists ← solve_exists_tx team_id challenge_id
  fail_if exists already_solved
  solved ← get_challenge_by_id challenge_id
  create_solve_tx (record {
    id = env.uuid 0;
    user_id = user_id;
    team_id = team_id;
    challenge_id = challenge_id;
    solved_at = env.now;
  })
  solve_count ← increment_challenge_solve_count_tx challenge_id
  updated ← submit_record_solve_update_points_if_decay F challenge_id solved solve_count
  pure (updated, solve_count)

-- What `NotifySolve` broadcasts.
pub record SolveNotice : Type 0 where
  pub team_id : ℕ
  pub title : String
  pub points : ℤ
  pub is_first_blood : Bool

-- The Boolean and the error that `SubmitFlag` returns, and what it broadcasts.
pub record Submission : Type 0 where
  pub is_correct : Bool
  pub error : Option Error
  pub notice : Option SolveNotice

abbrev pub is_already_solved : Error → Bool
is_already_solved already_solved = true
is_already_solved _ = false

abbrev pub refused : Bool → Error → Submission
refused is_correct e = record { is_correct = is_correct; error = some e; notice = none }

abbrev pub recorded : ℕ → World → Result (Challenge × ℤ) × Db → Submission × World
recorded team_id w (ok (c, solve_count), db) = (
  record {
    is_correct = true;
    error = none;
    notice = some (record {
      team_id = team_id;
      title = c.title;
      points = c.points;
      is_first_blood = eqb_ℤ solve_count (pos 1);
    });
  },
  record { db = db; boards = invalidate_all w.boards },
)
recorded team_id w (err e, db) =
    (refused (is_already_solved e) e, record { db = db; boards = w.boards })

abbrev pub after_verdict :
    ℕ → World → (Db → Result (Challenge × ℤ) × Db) → Result (Bool × Db) → Submission × World
after_verdict team_id w record_solve (err e) = (refused false e, w)
after_verdict team_id w record_solve (ok (false, _)) =
    (record { is_correct = false; error = none; notice = none }, w)
after_verdict team_id w record_solve (ok (true, _)) = recorded team_id w (record_solve w.db)

abbrev pub submit_for : Env → Float64 → Platform → ℕ → String → ℕ → ℕ → World → Submission × World
submit_for env F P challenge_id flag user_id team_id w =
    after_verdict team_id w
      (run_transaction env (submit_record_solve_tx env F challenge_id user_id team_id))
      (submit_verdict P challenge_id (P.trim_space flag) team_id w.db)

abbrev pub submit_with_team :
    Env → Float64 → Platform → ℕ → String → ℕ → Option ℕ → World → Submission × World
submit_with_team env F P challenge_id flag user_id none w = (refused false user_must_be_in_team, w)
submit_with_team env F P challenge_id flag user_id (some t) w =
    submit_for env F P challenge_id flag user_id t w

-- `SubmitFlag`
unfoldable pub submit_flag :
    Env → Float64 → Platform → ℕ → String → ℕ → Option ℕ → World → Submission × World
unfolding submit_verdict submit_record_solve_tx
submit_flag env F P challenge_id flag user_id team_id w =
    submit_with_team env F P challenge_id flag user_id team_id w
