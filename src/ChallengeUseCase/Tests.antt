-- ===== src/ChallengeUseCase/Tests.antt =====
-- Submissions on a small competition, and the theorems at those inputs.
use ctfboard.Base.{
  ◌≡◌, ◌≢◌, refl, true, false, none, some, String, [], ◌∷◌, str_eq, arith, if◌then◌else◌, map,
  if-cases, ap, Option, ℕ, str_eq_iff,
}
use ctfboard.Base.Int.{pos, ◌+ℤ◌, ◌-ℤ◌}
use ctfboard.Entity.{Challenge}
use ctfboard.Store.Transaction.{Db, err, run_transaction, ◌>>=◌}
use ctfboard.ChallengeUseCase.Flags.{store_flag, submit_check_flag, submit_check_hash_flag}
use ctfboard.ChallengeUseCase.Submit.{
  submit_flag, submit_record_solve_tx, submit_verdict, submit_validate_team,
  submit_validate_flag_format, submit_record_solve_update_points_if_decay,
}
use ctfboard.Scoring.Whole.{whole}
use ctfboard.Samples.{platform, challenge, running, full_cache, full_cache-IsIndexed}
use ctfboard.Samples.{at_time}
use ctfboard.Entity.Errors.{already_solved}
use ctfboard.Scoreboard.{World}
use ctfboard.Store.Challenges.{
  solve_exists_tx, get_challenge_by_id, create_solve_tx, increment_challenge_solve_count_tx,
  update_challenge_points_tx, outside_int32, find_challenge,
}
use ctfboard.Store.Teams.{get_team_by_id}
use ctfboard.Scoring.{calculate_dynamic_score, at_least}
use ctfboard.ChallengeUseCase.Solved.{
  submit_record_solve_once, solve_row, solved_once_more, submit_record_solve_changes,
}
use ctfboard.ChallengeUseCase.Verdict.{
  stored_flag_accepted, stored_flag_unsolvable, submit_flag_changes, submit_flag-IsShown, IsShown,
}
use ctfboard.Cache.Bounded.{BoundedCache}
use ctfboard.ChallengeUseCase.Regex.{get_compiled_regex, IsCoherent, get_compiled_regex-compile}
use ctfboard.Cache.Bounded.Queue.{IsIndexed}

abbrev world : World
world = record { db = running; boards = [] }

opened : Unit {0}
unfolding submit_flag submit_record_solve_tx submit_verdict solve_exists_tx get_challenge_by_id
    create_solve_tx increment_challenge_solve_count_tx update_challenge_points_tx run_transaction
    get_team_by_id submit_validate_team submit_validate_flag_format submit_check_flag
    submit_check_hash_flag calculate_dynamic_score submit_record_solve_update_points_if_decay
    outside_int32 ◌+ℤ◌ ◌-ℤ◌ ◌>>=◌ at_least store_flag
opened = tt

solved_points :
    map
      (λ c. c.points)
      (submit_flag (at_time 1) whole platform 5 "x" 1 (some 10) world).1.db.challenges
    ≡ pos 400 ∷ []
unfolding opened
solved_points = refl

-- The challenge and the tables after a solve by user 1.
abbrev worth_less : Challenge
worth_less = record challenge { solve_count = pos 2; points = pos 400 }

abbrev solved : Db
solved = record running {
  challenges = worth_less ∷ [];
  solves = record { id = 1010; user_id = 1; team_id = 10; challenge_id = 5; solved_at = 1 } ∷ [];
}

submit_record_solve_once_example :
    submit_record_solve_tx (at_time 2) whole 5 2 10 solved ≡ err already_solved
unfolding opened
submit_record_solve_once_example =
    submit_record_solve_once (at_time 1) (at_time 2) whole 5 1 2 10
      (record challenge { points = pos 400 }, pos 2) running solved refl

submit_record_solve_changes_example :
    (solved.solves ≡ solve_row (at_time 1) 5 1 10 ∷ [])
    × (solved.awards ≡ [])
    × (find_challenge 5 solved ≡ some (solved_once_more whole challenge))
unfolding opened
submit_record_solve_changes_example =
    submit_record_solve_changes (at_time 1) whole 5 1 10 5
      (record challenge { points = pos 400 }, pos 2) running solved refl

stored_flag_accepted_example : submit_check_flag platform challenge "x" ≡ true
unfolding opened
stored_flag_accepted_example =
    stored_flag_accepted platform challenge challenge "x" " x " refl refl refl

trim_twice :
    (s : String)
    → (if str_eq (if str_eq s " x " then "x" else s) " x "
        then "x"
        else if str_eq s " x "
        then "x"
        else s)
      ≡ (if str_eq s " x " then "x" else s)
trim_twice s =
    if-cases (λ (r : String). (if str_eq r " x " then "x" else r) ≡ r) (str_eq s " x ") _ _
      (λ _. refl) (λ e. ground (arith, e))

stored_flag_unsolvable_example :
    submit_check_flag platform (record challenge { flag_hash = " x " }) "y" ≡ false
unfolding opened
stored_flag_unsolvable_example =
    stored_flag_unsolvable platform challenge (record challenge { flag_hash = " x " }) " x " "y"
      trim_twice (λ s e. e) refl refl refl
      (λ e. ground (arith, ap (λ (s : String). str_eq s "x") e))

submit_flag_changes_example :
    ((submit_flag (at_time 1) whole platform 5 "x" 1 (some 10) world).0.is_correct ≡ true)
    × ((submit_flag (at_time 1) whole platform 5 "x" 1 (some 10) world).0.error ≡ none)
    × ((submit_flag (at_time 1) whole platform 5 "x" 1 (some 10) world).0.notice ≢ none)
unfolding opened
submit_flag_changes_example =
    submit_flag_changes (at_time 1) whole platform 5 "x" 1 (some 10) world (λ e. ground (arith, e))

submit_flag-IsShown_example :
    (team : ℕ) × (some 10 ≡ some team)
    × IsShown
        (at_time 1)
        5
        1
        team
        2
        world
        (submit_flag (at_time 1) whole platform 5 "x" 1 (some 10) world).1
unfolding opened
submit_flag-IsShown_example =
    submit_flag-IsShown (at_time 1) whole platform 5 "x" 1 (some 10) world 2
      (λ e. ground (arith, e))

abbrev compile_two : String → Option ℕ
compile_two p = if str_eq p "a" then some 1 else if str_eq p "b" then some 2 else some 3

get_compiled_regex-compile_example :
    (c' : BoundedCache ℕ) × (get_compiled_regex compile_two "c" full_cache ≡ some (some 3, c'))
    × IsIndexed c'
    × IsCoherent compile_two c'.entries
get_compiled_regex-compile_example =
    get_compiled_regex-compile compile_two "c" full_cache full_cache-IsIndexed (λ j v e.
      ground (arith, e, str_eq_iff "a" j, str_eq_iff "b" j, str_eq_iff j "a", str_eq_iff j "b"))
