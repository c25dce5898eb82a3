-- ===== src/TeamUseCase/Moderation.antt =====
-- backend/internal/usecase/team/team.go: what administrators do to teams, `BanTeam`, `UnbanTeam`,
-- `SetHidden` and `SetBracket`. Each statement runs on its own and commits or fails as a whole.
use ctfboard.Base.{ℕ, Bool, true, false, Option, none, some, String}
use ctfboard.Store.Transaction.{Db, Env, Result, ok, err, Tx, ◌>>◌}
use ctfboard.Store.Teams.{get_team_by_id, update_live_team}
use ctfboard.Scoreboard.{World}
use ctfboard.Cache.Boards.{invalidate_all}

-- `TeamRepo.Ban`
unfoldable pub ban : Env → ℕ → String → Tx (Unit {0})
ban env k reason =
    update_live_team k
      (λ t. record t { is_banned = true; banned_at = some env.now; banned_reason = some reason })

-- `TeamRepo.Unban`
unfoldable pub unban : ℕ → Tx (Unit {0})
unban k =
    update_live_team k (λ t. record t { is_banned = false; banned_at = none; banned_reason = none })

-- `TeamRepo.SetHidden`
unfoldable pub set_team_hidden : ℕ → Bool → Tx (Unit {0})
set_team_hidden k hidden = update_live_team k (λ t. record t { is_hidden = hidden })

-- `TeamRepo.SetBracket`
unfoldable pub set_team_bracket : ℕ → Option ℕ → Tx (Unit {0})
set_team_bracket k bracket_id = update_live_team k (λ t. record t { bracket_id = bracket_id })

-- On success the cached scoreboards are dropped (`invalidateScoreboardCache`).
abbrev pub invalidating : World → Result (Unit {0} × Db) → Result (Unit {0}) × World
invalidating w (ok (u, db)) = (ok u, record { db = db; boards = invalidate_all w.boards })
invalidating w (err e) = (err e, w)

-- `BanTeam`
unfoldable pub ban_team : Env → ℕ → String → World → Result (Unit {0}) × World
unfolding ban
ban_team env k reason w = invalidating w ((do get_team_by_id k; ban env k reason) w.db)

-- `UnbanTeam`
unfoldable pub unban_team : ℕ → World → Result (Unit {0}) × World
unfolding unban
unban_team k w = invalidating w ((do get_team_by_id k; unban k) w.db)

-- `SetHidden`
unfoldable pub set_hidden : ℕ → Bool → World → Result (Unit {0}) × World
unfolding set_team_hidden
set_hidden k hidden w = invalidating w ((do get_team_by_id k; set_team_hidden k hidden) w.db)

-- `SetBracket`
unfoldable pub set_bracket : ℕ → Option ℕ → World → Result (Unit {0}) × World
unfolding set_team_bracket
set_bracket k bracket_id w =
    invalidating w ((do get_team_by_id k; set_team_bracket k bracket_id) w.db)
