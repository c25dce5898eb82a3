-- ===== src/AwardUseCase.antt =====
-- backend/internal/usecase/team/award.go: an administrator gives or takes points.
pub mod Score
use ctfboard.Base.{ℕ, Option, none, some, String, List, ◌==◌, select_many, if◌then◌else◌}
use ctfboard.Base.Int.{ℤ, pos, eqb_ℤ}
use ctfboard.Entity.{Award}
use ctfboard.Entity.Errors.{zero_award}
use ctfboard.Store.Transaction.{Db, Env, Result, ok, err, Tx, gets, run_transaction}
use ctfboard.Store.Challenges.{create_award_tx}
use ctfboard.Scoreboard.{World}
use ctfboard.Cache.Boards.{invalidate_all}

abbrev pub new_award : Env → ℕ → ℤ → String → ℕ → Award
new_award env team_id value description created_by = record {
  id = env.uuid 0;
  team_id = team_id;
  value = value;
  description = description;
  created_by = some created_by;
  created_at = env.now;
}

abbrev pub finish_award : Award → World → Result (Unit {0}) × Db → Result Award × World
finish_award a w (ok _, db) = (ok a, record { db = db; boards = invalidate_all w.boards })
finish_award a w (err e, db) = (err e, record { db = db; boards = w.boards })

-- `Create`
unfoldable pub create_award : Env → ℕ → ℤ → String → ℕ → World → Result Award × World
create_award env team_id value description created_by w =
    let a : Award = new_award env team_id value description created_by in
    if eqb_ℤ value (pos 0)
    then (err zero_award, w)
    else finish_award a w (run_transaction env (create_award_tx a) w.db)

-- `GetByTeamID`
unfoldable pub get_awards_by_team_id : ℕ → Tx (List Award)
get_awards_by_team_id team_id = gets (λ db. select_many (λ a. a.team_id == team_id) db.awards)
