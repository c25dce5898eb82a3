-- ===== src/AwardUseCase/Score.antt =====
-- What an award does to the scores.
use ctfboard.Base.{ℕ, ◌≡◌, refl, false, String, ◌∷◌, ◌==◌, arith, if◌then◌else◌}
use ctfboard.Base.Int.{ℤ, pos, ◌+ℤ◌, eqb_ℤ, +ℤ_parts, eq_of_parts}
use ctfboard.Entity.{Award}
use ctfboard.Store.Transaction.{Db, Env, ok, run_transaction, ◌>>=◌}
use ctfboard.Store.Challenges.{team_score, sum_solves, sum_awards, create_award_tx}
use ctfboard.Scoreboard.{World}
use ctfboard.AwardUseCase.{create_award, new_award}

sum_swap : (s v a : ℤ) → s +ℤ (v +ℤ a) ≡ (s +ℤ a) +ℤ v
sum_swap s v a =
    eq_of_parts _ _
      (ground (arith, +ℤ_parts s (v +ℤ a), +ℤ_parts v a, +ℤ_parts (s +ℤ a) v, +ℤ_parts s a))

score_after :
    (j t : ℕ) (a : Award) (db : Db)
    → a.team_id ≡ t
    → team_score j (record db { awards = a ∷ db.awards })
      ≡ (if j == t then team_score j db +ℤ a.value else team_score j db)
unfolding team_score
score_after j t a db e =
    ground
      (arith, e, sum_swap (sum_solves j db.challenges db.solves) a.value (sum_awards j db.awards))

-- An award that is given changes the team's score by exactly its value, which is not zero, and no other
-- team's score.
pub create_award_score :
    (env : Env) (t by j : ℕ) (value : ℤ) (description : String) (a : Award) (w w' : World)
    → create_award env t value description by w ≡ (ok a, w')
    → (eqb_ℤ value (pos 0) ≡ false)
      × (team_score j w'.db ≡ (if j == t then team_score j w.db +ℤ value else team_score j w.db))
unfolding create_award run_transaction create_award_tx ◌>>=◌
create_award_score env t by j value description a w w' e = (
  ground (arith, e),
  ground (arith, e, score_after j t (new_award env t value description by) w.db refl),
)
