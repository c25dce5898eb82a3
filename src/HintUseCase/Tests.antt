-- ===== src/HintUseCase/Tests.antt =====
-- Hints on a small competition, and the theorems at those inputs.
use ctfboard.Base.{ℕ, ◌≡◌, ◌≢◌, refl, none, String, [], ◌∷◌, arith}
use ctfboard.Base.Int.{pos, ◌-ℤ◌, ◌+ℤ◌, ◌≤ℤ◌}
use ctfboard.Entity.{Hint}
use ctfboard.Store.Transaction.{Db, err, run_transaction, ◌>>=◌}
use ctfboard.Store.Challenges.{team_score, get_team_score_tx, create_award_tx, outside_int32}
use ctfboard.Store.Hints.{find_hint_unlock, create_hint_unlock_tx, get_hint_by_id}
use ctfboard.Store.Teams.{lock_team_tx}
use ctfboard.Entity.Errors.{hint_already_unlocked}
use ctfboard.HintUseCase.{unlock_hint_in_tx, unlock_hint}
use ctfboard.HintUseCase.Unlock.{unlock_hint_paid, unlock_hint_once, after_unlock}
use ctfboard.Samples.{start, at_time}

abbrev hint : ℕ → Hint
hint cost = record {
  id = 8;
  challenge_id = 5;
  content = "look closer";
  cost = pos cost;
  order_index = pos 1;
}

-- Team 10 has 50 points.
abbrev rich : Db
rich = record start {
  hints = hint 20 ∷ [];
  awards =
      record {
        id = 1;
        team_id = 10;
        value = pos 50;
        description = "bonus";
        created_by = none;
        created_at = 0;
      }
      ∷ [];
}

abbrev describe : ℕ → String
describe k = "Hint unlock"

abbrev unlocked : Db
unfolding ◌-ℤ◌
unlocked = after_unlock (at_time 1) describe 10 8 (hint 20) rich

opened : Unit {0}
unfolding unlock_hint_in_tx unlock_hint lock_team_tx get_team_score_tx create_award_tx
    create_hint_unlock_tx get_hint_by_id team_score outside_int32 run_transaction ◌+ℤ◌ ◌-ℤ◌ ◌>>=◌
opened = tt

unlock_hint_paid_example :
    (team_score 10 unlocked ≡ team_score 10 rich -ℤ pos 20)
    × (pos 0 ≤ℤ team_score 10 unlocked)
    × (find_hint_unlock 10 8 unlocked ≢ none)
unfolding opened
unlock_hint_paid_example =
    unlock_hint_paid (at_time 1) describe 10 8 (hint 20) rich unlocked (omega arith) refl

unlock_hint_once_example :
    unlock_hint_in_tx (at_time 2) describe 10 8 (hint 0) unlocked ≡ err hint_already_unlocked
unfolding opened
unlock_hint_once_example =
    unlock_hint_once (at_time 1) (at_time 2) describe 10 8 (hint 20) (hint 0) rich unlocked refl
