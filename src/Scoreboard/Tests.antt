-- ===== src/Scoreboard/Tests.antt =====
-- Scoreboards of a small competition, and the theorems at those inputs.
use ctfboard.Base.{◌≡◌, refl, none, some, [], ◌∷◌, arith, map, List}
use ctfboard.Base.Int.{pos, ◌+ℤ◌}
use ctfboard.Store.Transaction.{Db}
use ctfboard.Cache.Boards.{
  CachedBoard, scoreboard_bracket, invalidate_all, get_or_load, same_key, del,
}
use ctfboard.Scoreboard.{get_scoreboard, load_scoreboard}
use ctfboard.Scoreboard.Query.{standings, scoreboard_by_bracket, scoreboard_by_bracket_frozen}
use ctfboard.Scoreboard.Order.{standings-IsOrdered, IsOrdered, Each, team_of}
use ctfboard.Scoreboard.Listed.{IsListed, IsStanding, Chosen}
use ctfboard.Scoreboard.Freshness.{
  get_scoreboard-invalidate_all, get_scoreboard_stale_bracket, get_scoreboard_nil_bracket,
}
use ctfboard.Samples.{start}
use mathlib.Core.List.{Perm}
use ctfboard.Entity.{Team}

opened : Unit {0}
unfolding get_scoreboard load_scoreboard get_or_load same_key del invalidate_all
    scoreboard_by_bracket scoreboard_by_bracket_frozen standings ◌+ℤ◌
opened = tt

abbrev bonus : Db
bonus = record start {
  awards =
      record {
        id = 1;
        team_id = 20;
        value = pos 50;
        description = "bonus";
        created_by = none;
        created_at = 0;
      }
      ∷ [];
}

-- Team 20 is first, since it has points.
board_order :
    map (λ e. e.team_id) (get_scoreboard 200 none (record { db = bonus; boards = [] })).0
    ≡ 20 ∷ 10 ∷ []
unfolding opened
board_order = refl

standings-IsOrdered_example :
    IsOrdered (standings none bonus)
    × Each (IsStanding bonus) (standings none bonus)
    × (shown : List Team) × Chosen (IsListed none) bonus.teams shown
    × Perm (map team_of (standings none bonus)) shown
standings-IsOrdered_example = standings-IsOrdered none bonus

abbrev old : CachedBoard
old = record {
  key = scoreboard_bracket 4;
  expires_at = 210;
  entries = record { team_id = 10; team_name = "red"; points = pos 7; solved_at = 0 } ∷ [];
}

get_scoreboard-invalidate_all_example :
    (get_scoreboard 200 none (record { db = bonus; boards = invalidate_all (old ∷ []) })).0
    ≡ load_scoreboard bonus 200 none
get_scoreboard-invalidate_all_example = get_scoreboard-invalidate_all 200 bonus (old ∷ [])

get_scoreboard_stale_bracket_example :
    (get_scoreboard 200 (some 4) (record { db = bonus; boards = invalidate_all (old ∷ []) })).0
    ≡ old.entries
unfolding opened
get_scoreboard_stale_bracket_example =
    get_scoreboard_stale_bracket 200 4 old bonus (old ∷ []) (λ e. ground (arith, e)) refl

get_scoreboard_nil_bracket_example :
    (get_scoreboard 201 none (get_scoreboard 200 (some 0) (record { db = bonus; boards = [] })).1).0
    ≡ load_scoreboard bonus 200 (some 0)
unfolding opened
get_scoreboard_nil_bracket_example =
    get_scoreboard_nil_bracket 200 201 (record { db = bonus; boards = [] }) refl (omega arith) refl
