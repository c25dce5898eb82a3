-- ===== src/Scoreboard/Freshness.antt =====
-- When a scoreboard shows what the tables hold.
use ctfboard.Base.{ℕ, ◌≡◌, ◌≢◌, none, some, List, arith, ◌<◌, ◌+◌}
use ctfboard.Store.Transaction.{Db}
use ctfboard.Cache.Boards.{
  CachedBoard, find_board, invalidate_all, get_or_load, find_board-invalidate_all, same_key,
}
use ctfboard.Scoreboard.{
  World, get_scoreboard, load_scoreboard, is_frozen, overall_key, bracket_key, scoreboard_ttl,
}

-- Just after an invalidation of all boards, the overall scoreboard is what the tables hold.
pub get_scoreboard-invalidate_all :
    (now : ℕ) (db : Db) (boards : List CachedBoard)
    → (get_scoreboard now none (record { db = db; boards = invalidate_all boards })).0
      ≡ load_scoreboard db now none
unfolding get_scoreboard get_or_load
get_scoreboard-invalidate_all now db boards =
    ground
      (arith, find_board-invalidate_all (overall_key (is_frozen db.competition now)) now boards)

-- An invalidation of all boards leaves the board of a bracket: until it expires it is served as it
-- was, whatever the tables hold by then.
pub get_scoreboard_stale_bracket :
    (now b : ℕ) (c : CachedBoard) (db : Db) (boards : List CachedBoard)
    → b ≢ 0
    → find_board (bracket_key (is_frozen db.competition now) b) now boards ≡ some c
    → (get_scoreboard now (some b) (record { db = db; boards = invalidate_all boards })).0
      ≡ c.entries
unfolding get_scoreboard get_or_load
get_scoreboard_stale_bracket now b c db boards real kept =
    ground
      (arith, find_board-invalidate_all (bracket_key (is_frozen db.competition now) b) now boards)

-- A request for the bracket with the nil id, when the overall scoreboard is not cached, fills the
-- overall scoreboard's place with the teams of that bracket, and the next request for the overall
-- scoreboard within the time to live gets those, if the board is not frozen in between.
pub get_scoreboard_nil_bracket :
    (now after : ℕ) (w : World)
    → find_board (overall_key (is_frozen w.db.competition now)) now w.boards ≡ none
    → after < now + scoreboard_ttl
    → is_frozen w.db.competition after ≡ is_frozen w.db.competition now
    → (get_scoreboard after none (get_scoreboard now (some 0) w).1).0
      ≡ load_scoreboard w.db now (some 0)
unfolding get_scoreboard get_or_load same_key
get_scoreboard_nil_bracket now after w absent soon same = ground (arith, absent, soon, same)
