-- ===== src/ChallengeUseCase/Solved.antt =====
-- What a recorded solve changes in the tables.
use ctfboard.Base.{refl, [], Option-cases, inl, inr, mapped}
use ctfboard.Base.{ℕ, ◌≡◌, ◌||◌, arith, if◌then◌else◌, List, ◌∷◌, select_one, ◌==◌, update_where}
use ctfboard.Base.Int.{ℤ, pos, ◌+ℤ◌, leb_ℤ}
use ctfboard.Entity.{Challenge, Solve}
use ctfboard.Entity.Errors.{already_solved}
use ctfboard.Store.Transaction.{Db, Env, ok, err, ◌>>=◌}
use ctfboard.Store.Challenges.{
  solve_exists_tx, get_challenge_by_id, create_solve_tx, increment_challenge_solve_count_tx,
  update_challenge_points_tx, find_challenge, has_challenge_id, find_challenge-update,
}
use ctfboard.Scoring.{Float64, calculate_dynamic_score}
use ctfboard.ChallengeUseCase.Submit.{submit_record_solve_tx}

-- The row that a submission adds.
abbrev pub solve_row : Env → ℕ → ℕ → ℕ → Solve
solve_row env k user t = record {
  id = env.uuid 0;
  user_id = user;
  team_id = t;
  challenge_id = k;
  solved_at = env.now;
}

-- The points of a challenge after its next solve.
abbrev pub next_points : Float64 → Challenge → ℤ
next_points F c =
    if leb_ℤ c.initial_value (pos 0) || leb_ℤ c.decay (pos 0)
    then c.points
    else calculate_dynamic_score F c.initial_value c.min_value c.decay (c.solve_count +ℤ pos 1)

-- A challenge after its next solve.
abbrev pub solved_once_more : Float64 → Challenge → Challenge
solved_once_more F c = record c { solve_count = c.solve_count +ℤ pos 1; points = next_points F c }

-- A second solve of a challenge by the same team is refused, whichever member submits it.
pub submit_record_solve_once :
    (env env' : Env) (F : Float64) (k user user' t : ℕ) (r : Challenge × ℤ) (db db' : Db)
    → submit_record_solve_tx env F k user t db ≡ ok (r, db')
    → submit_record_solve_tx env' F k user' t db' ≡ err already_solved
unfolding submit_record_solve_tx solve_exists_tx get_challenge_by_id create_solve_tx
    increment_challenge_solve_count_tx update_challenge_points_tx ◌>>=◌
submit_record_solve_once env env' F k user user' t r db db' e = ground (arith, e)

-- Counting a solve and then setting the points, on the challenge of a key.
two_updates :
    (j k : ℕ) (p : ℤ) (cs : List Challenge)
    → select_one (has_challenge_id j) (
        update_where
          (has_challenge_id k)
          (λ x. record x { points = p })
          (update_where
            (has_challenge_id k)
            (λ x. record x { solve_count = x.solve_count +ℤ pos 1 })
            cs))
      ≡ (if j == k
          then mapped
              (λ x. record x { solve_count = x.solve_count +ℤ pos 1; points = p })
              (select_one (has_challenge_id j) cs)
          else select_one (has_challenge_id j) cs)
two_updates j k p [] = ground arith
two_updates j k p (c ∷ cs) = ground (arith, two_updates j k p cs)

one_update :
    (j k : ℕ) (cs : List Challenge)
    → select_one (has_challenge_id j) (
        update_where
          (has_challenge_id k)
          (λ x. record x { solve_count = x.solve_count +ℤ pos 1 })
          cs)
      ≡ (if j == k
          then mapped
              (λ x. record x { solve_count = x.solve_count +ℤ pos 1 })
              (select_one (has_challenge_id j) cs)
          else select_one (has_challenge_id j) cs)
one_update j k cs = find_challenge-update j k _ cs (λ c. refl)

-- A recorded solve adds one row for the team's first solve of the challenge, counts it, and sets the
-- challenge's points to its score at the new count; other challenges and all awards stay as they are.
pub submit_record_solve_changes :
    (env : Env) (F : Float64) (k user t j : ℕ) (r : Challenge × ℤ) (db db' : Db)
    → submit_record_solve_tx env F k user t db ≡ ok (r, db')
    → (db'.solves ≡ solve_row env k user t ∷ db.solves)
      × (db'.awards ≡ db.awards)
      × (find_challenge j db' ≡ (
          if j == k
          then mapped (solved_once_more F) (find_challenge j db)
          else find_challenge j db))
unfolding submit_record_solve_tx solve_exists_tx get_challenge_by_id create_solve_tx
    increment_challenge_solve_count_tx update_challenge_points_tx ◌>>=◌
submit_record_solve_changes env F k user t j r db db' e = (
  ground (arith, e),
  ground (arith, e),
  elim (Option-cases (find_challenge k db)) [
    | inl absent ↦ ground (arith, e, absent)
    | inr (c, found) ↦ ground (
      arith,
      e,
      found,
      one_update j k db.challenges,
      two_updates j k (next_points F c) db.challenges,
    )
  ],
)
