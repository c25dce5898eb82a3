-- ===== src/SubmissionUseCase/Tests.antt =====
-- Three submissions in pages of two.
use ctfboard.Samples.{start, at_time, challenge}
use ctfboard.Store.Statement.{exec}
use ctfboard.Store.Transaction.{ok, Db, Env}
use ctfboard.Entity.Records.{Submission}
use ctfboard.Base.{if◌then◌else◌, ℕ, ◌∷◌, Bool, [], some, true, false, ◌≡◌, arith, refl, ◌-◌}
use ctfboard.SubmissionUseCase.{
  per_page_or_twenty, get_stats, get_submission_stats, pos, ℤ, get_submissions_by_challenge,
}
use ctfboard.SubmissionUseCase.Pages.{collect, collect-get_submissions_by_challenge, IsUp}
use ctfboard.Store.Submissions.{get_submission_stats, submissions_by_challenge}
use ctfboard.Base.Int.{eqb_ℤ}

abbrev submission : ℕ → Bool → Submission
submission id right = record {
  id = id;
  user_id = 1;
  team_id = some 10;
  challenge_id = 5;
  submitted_flag = "x";
  is_correct = right;
  ip = "";
  created_at = id;
}

abbrev played : Db
played = record start {
  challenges = challenge ∷ [];
  submissions = submission 3 true ∷ submission 1 false ∷ submission 2 false ∷ [];
}

-- The first page is asked for at one time, the second when another order of equals is chosen.
abbrev asked : ℤ → Env
asked p = record (at_time 9) { ties = λ k. if eqb_ℤ p (pos 1) then k else 10 - k }

asked-IsUp : IsUp asked
asked-IsUp p m = refl

collect-get_submissions_by_challenge_example :
    collect (λ p. (get_submissions_by_challenge (asked p) 5 p (pos 2) played).0) 2
    ≡ ok (submissions_by_challenge (λ k. k) 5 played)
unfolding per_page_or_twenty
collect-get_submissions_by_challenge_example =
    collect-get_submissions_by_challenge asked (λ k. k) 5 (pos 2) 2 played asked-IsUp
      (refl, (refl, (refl, tt))) (ground arith) (ground arith)

counts :
    get_stats (at_time 9) 5 played ≡ (ok (record { total = 3; correct = 1; incorrect = 2 }), played)
unfolding get_stats get_submission_stats exec
counts = refl
